-- ===== src/Server/Tests.antt =====
-- Examples for the transports and the tables behind them: each theorem at a concrete input.
use my_token.Base.{
  ℕ, ◌+◌, ◌-◌, ◌*◌, ◌/◌, ◌^◌, ◌≤◌, Text, codes, eqb, ltb, ◌==◌, ◌≡◌, ◌⊎◌, refl, true, false, [],
  ◌∷◌, filter, any, All, Option, none, some, ok, arith, has_prefix,
}
use my_token.Usage.Floats.{Float64}
use my_token.Usage.Event.{IngestEvent, Time, GroupBy, parse_group_by}
use my_token.Usage.Repo.{Driver, Tables}
use my_token.Usage.Service.{repo}
use my_token.Usage.Window.{parse_window, window_bounds, start_of_lifetime}
use my_token.Identity.Repo.{
  User, ApiKeyRow, IdentityTables, IdentityDriver, get_api_key_by_hash, api_key_from_row,
  is_live_id, is_own_live,
}
use my_token.Identity.Repo.Lookups.{is_foreign}
use my_token.Identity.Service.{Credentials, bearer_token, resolve_actor}
use my_token.Identity.Service.Resolving.{IsEntitled}
use my_token.Http.{Response, respond, refuse, answer, unauthorized_body}
use my_token.Bff.Keys as OwnerKeys
use my_token.Bff.Keys.Revoking.{IsRevoked, revoke_key_lem}
use my_token.Bff.Console.{UsageParams, UsageSummary, get_usage_summary}
use my_token.Bff.Console.Answers.{CountsAsked, get_usage_summary_lem}
use my_token.PublicApi.Keys as AgentKeys
use my_token.PublicApi.Keys.Own.{revoke_key_own}
use my_token.PublicApi.Middleware.{ApiRequest, Parsers, guarded, actor_field_present}
use my_token.PublicApi.Middleware.Guards.{Declares, read_bytes, guarded_lem}
use my_token.PublicApi.Usage.{BatchRequest}
use my_token.Server.Keys.{here, next, write, agent_revokes, issues}
use my_token.Server.Keys.Revoked.{resolve_actor-Reach}
use my_token.Server.Reports
use my_token.Server.Reports.{Report, report, HasPrimaryKeys, Grows, Reach-Grows}

abbrev ann : User
ann = record {
  id = codes "u2";
  handle = codes "ann";
  role = codes "agent";
  active = true;
  sso_subject = [];
  created_at = 1;
  updated_at = 1;
}

abbrev key_row : Option ℕ → ApiKeyRow
key_row revoked_at = record {
  id = codes "k1";
  user_id = codes "u2";
  key_hash = codes "secret";
  key_prefix = codes "tpl";
  created_at = 1;
  expires_at = 100;
  revoked_at = revoked_at;
}

abbrev identity : Option ℕ → IdentityTables
identity revoked_at = record { users = []; api_keys = key_row revoked_at ∷ [] }

abbrev works : IdentityDriver
works = record {
  reads_users = true;
  writes_users = true;
  reads_keys = true;
  writes_keys = true;
  revokes = λ id. true;
}

abbrev credentials : Credentials
credentials = record { sha256_hex = λ s. s; trim_space = λ s. s; verify = none }

-- A live key that its agent revokes.
revoke_key_own_example :
    let (response, t') = AgentKeys.revoke_key works (some ann) (codes "k1") 7 (identity none) in
    ((response ≡ respond 204)
      × (any (is_own_live (codes "k1") (codes "u2")) (identity none).api_keys ≡ true)
      × All (λ row. is_own_live (codes "k1") (codes "u2") row ≡ false) t'.api_keys
      × (filter (is_foreign (codes "k1") (codes "u2")) t'.api_keys
          ≡ filter (is_foreign (codes "k1") (codes "u2")) (identity none).api_keys)
      × (t'.users ≡ []))
    ⊎ ((response ≡ refuse 404 AgentKeys.not_found_body)
        × (any (is_own_live (codes "k1") (codes "u2")) (identity none).api_keys ≡ false)
        × (t' ≡ identity none))
    ⊎ ((response ≡ respond 500) × (true ≡ false) × (t' ≡ identity none))
revoke_key_own_example = revoke_key_own works ann (codes "k1") 7 (identity none)

revoke_key_lem_example :
    let (response, t') = OwnerKeys.revoke_key works (some ann) (codes "k1") 7 (identity none) in
    ((response ≡ respond 204) × IsRevoked (codes "k1") (identity none) t')
    ⊎ ((response ≡ refuse 404 OwnerKeys.key_not_found_body)
        × (any (is_live_id (codes "k1")) (identity none).api_keys ≡ false)
        × (t' ≡ identity none))
    ⊎ ((response ≡ respond 500) × (true ≡ false) × (t' ≡ identity none))
revoke_key_lem_example = revoke_key_lem works ann (codes "k1") 7 (identity none)

takes : bearer_token credentials works (codes "Bearer secret") ≡ some (codes "secret")
unfolding bearer_token has_prefix ◌==◌
takes = refl

holds :
    get_api_key_by_hash works (codes "secret") (identity (some 5))
    ≡ ok (api_key_from_row (key_row (some 5)))
unfolding get_api_key_by_hash ◌==◌
holds = refl

was_revoked : (api_key_from_row (key_row (some 5))).revoked_at ≡ some 5
unfolding api_key_from_row
was_revoked = refl

-- A revoked key after two later calls.
resolve_actor-Reach_example :
    resolve_actor credentials works (codes "Bearer secret") 9 (
      write credentials works (agent_revokes (some ann) (codes "k1") 8) (
        write credentials works
          (issues (codes "u3") (codes "k3") (some (codes "ff")) 6 (codes "bob"))
          (identity (some 5))))
    ≡ none
resolve_actor-Reach_example =
    resolve_actor-Reach credentials works works (identity (some 5)) _ (codes "Bearer secret")
      (codes "secret") (api_key_from_row (key_row (some 5))) 5 9 takes holds was_revoked
      (next works (agent_revokes (some ann) (codes "k1") 8)
        (next works (issues (codes "u3") (codes "k3") (some (codes "ff")) 6 (codes "bob")) here))

abbrev fixed : Float64 ℕ
fixed = record {
  of_int64 = λ n. n * 10 ^ 8;
  decimal = λ m k. m * 10 ^ (8 - k);
  plus = λ a b. a + b;
  times = λ a b. a * b / 10 ^ 8;
  over = λ a b. a * 10 ^ 8 / b;
  same = eqb;
  less = ltb;
}

abbrev unchanged : Text → Text
unchanged s = s

abbrev event : IngestEvent
event = record {
  id = codes "m1";
  session_id = codes "s";
  actor = codes "ann";
  path = codes "/repo";
  machine = codes "i1";
  model = codes "claude-opus-4-5";
  scan_root = codes "/home";
  input_tokens = 10;
  output_tokens = 20;
  cache_read_input_tokens = 0;
  cache_creation_input_tokens = 0;
  timestamp = 3;
}

abbrev request : BatchRequest
request = record {
  install_id = codes "i1";
  hostname = codes "laptop";
  events = event ∷ event ∷ [];
  scan_roots =
      record { path = codes "/home"; name = codes "main"; source_type = codes "claude_code" } ∷ [];
}

abbrev bind : Text → Option BatchRequest
bind body = some request

abbrev database : Driver
database = record {
  begins = true;
  executes = λ i. true;
  rolls_back = true;
  commits = true;
  writes = true;
  reads_events = true;
  reads_machines = true;
  reads_scan_roots = true;
}

abbrev empty : Tables ℕ
empty = record { usage_events = []; machines = []; scan_roots = [] }

abbrev posted : Report
posted = record { bind = bind; actor = some ann; body = []; machine_at = 4; roots_at = 5 }

-- The same report twice, from empty tables.
Reach-Grows_example :
    Grows fixed unchanged empty
      (report fixed unchanged database posted (report fixed unchanged database posted empty))
Reach-Grows_example =
    Reach-Grows fixed unchanged empty _ (tt, tt, tt)
      (Reports.Reach.next database posted (Reports.Reach.next database posted Reports.Reach.here))

abbrev parsers : Parsers
parsers = record {
  to_lower = unchanged;
  trim_space = unchanged;
  object_keys = λ body. some (body ∷ []);
}

abbrev asking : ApiRequest
asking = record {
  x_actor = [];
  authorization = codes "Bearer secret";
  query_keys = [];
  body = some (record { bytes = codes "actor"; complete = true });
}

abbrev created : ApiRequest → User → Response (Unit {0})
created req user = respond 201

guarded_lem_example :
    (Declares parsers asking
      × (guarded parsers credentials works 9 (identity none) asking created
          ≡ refuse 400 actor_field_present))
    ⊎ (¬ Declares parsers asking
        × (resolve_actor credentials works (codes "Bearer secret") 9 (identity none) ≡ none)
        × (guarded parsers credentials works 9 (identity none) asking created
            ≡ refuse 401 unauthorized_body))
    ⊎ (¬ Declares parsers asking
        × ((req' : ApiRequest) × (user : User) × (token : Text) × (guarded parsers credentials works
                9
                (identity none)
                asking
                created
              ≡ created req' user)
            × (read_bytes req' ≡ some (codes "actor"))
            × (bearer_token credentials works (codes "Bearer secret") ≡ some token)
            × IsEntitled credentials works 9 (identity none) token user))
guarded_lem_example = guarded_lem parsers credentials works 9 (identity none) asking created

abbrev params : UsageParams
params = record { window = codes "24h"; group_by = codes "path"; machine = none; scan_root = none }

abbrev now : ℕ
now = 64000000000000000000

parses : parse_window (codes "24h") ≡ some (codes "24h")
unfolding parse_window ◌==◌
parses = refl

groups : parse_group_by (codes "path") ≡ some GroupBy.path
unfolding parse_group_by ◌==◌
groups = refl

after_2000 : start_of_lifetime ≤ now
unfolding start_of_lifetime my_token.Usage.Calendar.date my_token.Usage.Calendar.days_before
    my_token.Usage.Calendar.days_before_month
after_2000 = omega arith

-- One event of the last day.
abbrev used : Tables ℕ
used = record {
  usage_events =
      record {
        id = codes "m1";
        session_id = codes "s";
        actor = codes "ann";
        path = codes "/repo";
        machine = codes "i1";
        model = codes "claude-opus-4-5";
        scan_root = codes "/home";
        input_tokens = 10;
        output_tokens = 20;
        cache_read_input_tokens = 0;
        cache_creation_input_tokens = 0;
        cost = 7;
        source = codes "claude_code";
        created_at = 63999999999999999000;
      }
      ∷ [];
  machines = [];
  scan_roots = [];
}

get_usage_summary_lem_example :
    (start : Time) × (end : Time) × (body : UsageSummary ℕ) × (window_bounds (codes "24h") now
      ≡ some (start, end))
    × (get_usage_summary (repo database) (some ann) fixed params now used ≡ answer 200 body)
    × CountsAsked fixed database used start end params GroupBy.path body
get_usage_summary_lem_example =
    get_usage_summary_lem fixed database used ann params (codes "24h") GroupBy.path now after_2000
      refl refl (ground arith) parses groups
