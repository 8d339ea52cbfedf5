-- ===== src/Collector/Tests.antt =====
-- Examples for internal/collector: each theorem at a concrete input.
use mathlib.Core.List.{Permᴰ}
use my_token.Base.{
  ℕ, suc, zero, ◌+◌, Text, codes, ◌==◌, ==_iff, Bool, true, false, ◌≡◌, refl, List, [], ◌∷◌, ◌++◌,
  Map, map, length, Option, none, some, ok, lookup, drop, arith, ap, ◌∙◌, sym, HasNoRepeats,
  if◌then◌else◌,
}
use my_token.Usage.Tests.{fixed}
use my_token.Usage.Pricing
use my_token.Collector.Pricing.{cost_for_usage}
use my_token.Collector.Pricing.Agreement.{cost_for_usage_agrees}
use my_token.Collector.TouchedPaths.{Decoders, ToolUseBlock, first_session_id}
use my_token.Collector.Transcript.{RawRecord, UsageRow, extract_usage_rows}
use my_token.Collector.Paths.{
  FileSystem, cached_git_root_resolver, tally_git_roots, majority_git_root,
}
use my_token.Collector.Paths.Majority.{
  IsElected, majority_git_root-IsElected, majority_git_root_any_order,
}
use my_token.Collector.Paths.Cache.{
  logged, answered, tally_git_roots_once, tally_git_roots_cached, AgreesWith,
}
use my_token.Collector.Store.{PathStore, StoreDriver, scan_offset}
use my_token.Collector.Sessions.{Scan, scan_file}
use my_token.Collector.Sessions.Incremental.{scan_file_grown, vote_count}
use my_token.Collector.Scan.{Disk, RootStat, ScanPath}
use my_token.Collector.Sent.{SentFile}
use my_token.Collector.Run.{Setup, World, run}
use my_token.Collector.Run.Again.{run_again}
use my_token.Collector.Run.Refused.{run_refused}

cost_for_usage_agrees_example :
    cost_for_usage fixed (λ s. s) (codes "claude-opus-4-1") 1 2 3 4
    ≡ Pricing.cost_for_usage fixed (λ s. s) (codes "claude-opus-4-1") 1 2 3 4
cost_for_usage_agrees_example =
    cost_for_usage_agrees fixed (λ s. s) (codes "claude-opus-4-1") 1 2 3 4

-- A line is a message id; it stands for a record of that message with usage.
abbrev record_of : Text → Option RawRecord
record_of line = some (record {
  uuid = codes "u";
  session_id = codes "s";
  cwd = codes "/repo";
  timestamp = codes "t";
  message = some (record {
    id = line;
    model = codes "claude-opus-4-5";
    usage = some (record {
      input_tokens = 1;
      output_tokens = 2;
      cache_read_input_tokens = 3;
      cache_creation_input_tokens = 4;
    });
  });
})

abbrev transcript : List Text
transcript = codes "m1" ∷ [] ∷ codes "m2" ∷ codes "m1" ∷ []

-- Two roots tie at two votes.
abbrev counts : Map ℕ
counts = (codes "/b", 2) ∷ (codes "/c", 1) ∷ (codes "/a", 2) ∷ []

abbrev counts_moved : Map ℕ
counts_moved = (codes "/c", 1) ∷ (codes "/b", 2) ∷ (codes "/a", 2) ∷ []

majority_git_root-IsElected_example : IsElected counts (majority_git_root counts)
majority_git_root-IsElected_example = majority_git_root-IsElected counts

majority_git_root_any_order_example : majority_git_root counts ≡ majority_git_root counts_moved
majority_git_root_any_order_example =
    majority_git_root_any_order counts counts_moved (Permᴰ.swap refl refl)

-- Every directory below "/r" is of the repository "/r"; all paths are directories.
abbrev answer : Text → Option Text
answer dir = if dir == codes "/r/x" then some (codes "/r") else none

abbrev directories : FileSystem
directories = record { stat = λ p. some true; dir = λ p. p; base = λ p. p }

abbrev touched : List Text
touched = codes "/r/x" ∷ codes "/tmp/t" ∷ codes "/r/x" ∷ codes "/q" ∷ []

tally_git_roots_once_example : HasNoRepeats (
    answered answer (
      (tally_git_roots directories
        (cached_git_root_resolver (logged answer))
        touched
        ([], [])).1.1))
tally_git_roots_once_example = tally_git_roots_once answer directories touched []

abbrev known : Map Text
known = (codes "/r/x", codes "/r") ∷ []

known-AgreesWith : AgreesWith answer known
unfolding lookup
known-AgreesWith dir root h = ground (arith, h, ==_iff (codes "/r/x") dir)

tally_git_roots_cached_example :
    ((tally_git_roots directories (cached_git_root_resolver (logged answer)) touched (known, [])).0
      ≡ (tally_git_roots directories (logged answer) touched []).0)
    × AgreesWith answer (
        (tally_git_roots directories
          (cached_git_root_resolver (logged answer))
          touched
          (known, [])).1.0)
tally_git_roots_cached_example =
    tally_git_roots_cached answer directories touched (known, []) [] known-AgreesWith

-- A line is the path of a file that was read.
abbrev reads : Decoders
reads = record {
  content = λ line. some line;
  blocks =
      λ c. some ((record { block_type = codes "tool_use"; name = codes "Read"; input = c }) ∷ []);
  string_field = λ name input. some input;
  session_id = λ line. some (codes "s");
  home = none;
  join = λ a b. a ++ b;
}

abbrev all_work : StoreDriver
all_work = record {
  loads_git_roots = true;
  saves_git_roots = true;
  adds_votes = λ s. true;
  reads_votes = λ s. true;
  reads_offset = λ s f. true;
  sets_offset = λ s f. true;
}

abbrev no_rows : PathStore
no_rows = record { git_root_cache = []; session_path_votes = []; session_scan_progress = [] }

abbrev fresh : Scan (List Text)
fresh = record { store = no_rows; cache = (known, []) }

abbrev more : List Text
more = codes "/r/x" ∷ codes "/q" ∷ []

touched_session : first_session_id reads touched ≡ some (codes "s")
unfolding first_session_id ◌==◌
touched_session = refl

fresh_offset : scan_offset all_work (codes "s") (codes "f") no_rows ≡ ok 0
unfolding scan_offset lookup
fresh_offset = refl

abbrev once : Scan (List Text)
once =
    (scan_file all_work reads directories (λ f. some touched) (logged answer) (codes "f") fresh).1

scan_file_grown_example :
    ((scan_file all_work reads directories
        (λ f. some (touched ++ more))
        (logged answer)
        (codes "f")
        once).0
      ≡ ok tt)
    × (vote_count (codes "s") (codes "/r") (
          (scan_file all_work reads directories
            (λ f. some (touched ++ more))
            (logged answer)
            (codes "f")
            once).1)
        ≡ vote_count (codes "s") (codes "/r") (
            (scan_file all_work reads directories
              (λ f. some (touched ++ more))
              (logged answer)
              (codes "f")
              fresh).1))
scan_file_grown_example =
    scan_file_grown reads directories answer all_work (λ f. some touched)
      (λ f. some (touched ++ more)) (codes "s") (codes "f") (codes "/r") touched more fresh
      (refl, (refl, refl)) known-AgreesWith refl refl touched_session fresh_offset

-- Ids as bytes: each byte raised by one, and a zero behind each id.
abbrev raise : Text → Text → Text
raise [] rest = 0 ∷ rest
raise (c ∷ s) rest = suc c ∷ raise s rest

abbrev encode : List Text → Text
encode [] = []
encode (id ∷ ids) = raise id (encode ids)

abbrev push : ℕ → List Text → List Text
push c [] = (c ∷ []) ∷ []
push c (id ∷ ids) = (c ∷ id) ∷ ids

abbrev decode : Text → List Text
decode [] = []
decode (zero ∷ s) = [] ∷ decode s
decode (suc c ∷ s) = push c (decode s)

decode-raise : (id : Text) (rest : Text) → decode (raise id rest) ≡ id ∷ decode rest
decode-raise [] rest = refl
decode-raise (c ∷ id) rest = ap (push c) (decode-raise id rest)

decode-encode : (ids : List Text) → decode (encode ids) ≡ ids
decode-encode [] = refl
decode-encode (id ∷ ids) = decode-raise id (encode ids) ∙ ap (λ l. id ∷ l) (decode-encode ids)

-- One transcript under one scan root; the server counts the events that it gets.
abbrev setup : Setup ℕ (List Text) ℕ
setup = record {
  fl = fixed;
  to_lower = λ s. s;
  dec = reads;
  decode_record = record_of;
  parse_time = length;
  disk = record {
    stat = λ root. RootStat.is_dir;
    walk = λ root. some ((codes "/p", true) ∷ (codes "/p/a.jsonl", false) ∷ []);
  };
  fs = directories;
  read = λ file. some transcript;
  drv = all_work;
  opens_store = true;
  decode_ids = λ s. some (decode s);
  encode_ids = encode;
  writes_state = true;
  resolver = logged answer;
  poster = λ roots events n.
      (some (record { received = length events; inserted = length events }), n + length events);
  install_id = codes "A";
  scan_paths = (record { path = codes "/p"; name = codes "p"; source_type = [] }) ∷ [];
}

abbrev start : World (List Text) ℕ
start = record { sent_file = SentFile.not_exist; store = no_rows; git = []; server = 0 }

run_works : (run setup start).0 ≡ none
unfolding run my_token.Collector.Scan.find_transcript_files my_token.Base.has_prefix
    my_token.Collector.Sent.load_sent_state my_token.Collector.Sessions.scan_session_paths
    my_token.Collector.Store.all_git_roots first_session_id ◌==◌ scan_offset
    my_token.Collector.Store.add_votes my_token.Collector.TouchedPaths.extract_touched_paths lookup
    my_token.Collector.TouchedPaths.paths_of_line tally_git_roots
    my_token.Collector.TouchedPaths.is_scratch_path my_token.Base.insert cached_git_root_resolver
    my_token.Collector.Paths.seed my_token.Base.member my_token.Base.add_member
    my_token.Collector.Store.set_scan_offset my_token.Collector.Store.save_git_roots
    extract_usage_rows my_token.Collector.Transcript.row_of_line
    my_token.Collector.Store.vote_counts my_token.Collector.Sent.filter_unsent
run_works = refl

run_again_example :
    ((run setup ((run setup start).1.1)).1.0.new_rows_found ≡ 0)
    × ((run setup ((run setup start).1.1)).1.1.server ≡ (run setup start).1.1.server)
run_again_example = run_again setup start (λ ids. ap some (decode-encode ids)) run_works

-- The same collector with a server that answers nothing.
abbrev refused_setup : Setup ℕ (List Text) ℕ
refused_setup = record setup { poster = λ roots events n. (none, n) }

run_refused_example : (run refused_setup start).1.1.sent_file ≡ SentFile.not_exist
run_refused_example = run_refused refused_setup start (λ roots events n. refl)
