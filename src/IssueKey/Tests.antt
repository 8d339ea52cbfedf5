-- ===== src/IssueKey/Tests.antt =====
-- Examples for cmd/issue-key: each theorem at a concrete input.
use my_token.Base.{
  ◌+◌, ◌*◌, ◌^◌, Text, codes, has_prefix, true, ◌==◌, ◌≡◌, refl, List, [], ◌∷◌, ◌++◌, Option, none,
  some, ok, false,
}
use my_token.Base.Files.{succeeds}
use my_token.Identity.Repo.{
  User, IdentityTables, IdentityDriver, get_user_by_id, get_user_by_handle, create_user,
  create_api_key, api_key_from_row,
}
use my_token.Identity.Service.{
  Credentials, KeyIssuanceResult, gate, bearer_token, resolve_actor, issue_api_key_for_handle,
}
use my_token.IssueKey.KeyFile.{Files, KeyDisk}
use my_token.IssueKey.Command.{run_issue}
use my_token.IssueKey.Command.Issued.{
  base_dir, key_path, resolver_path, HasFiles, run_issue-resolve_actor,
}

unfoldable join : List Text → Text
join [] = []
join (part ∷ parts) = part ++ 47 ∷ join parts

abbrev disk : KeyDisk
disk = record { makes = λ _. true; reads = λ _. true; writes = λ _. succeeds }

abbrev credentials : Credentials
credentials = record { sha256_hex = λ s. s; trim_space = λ s. s; verify = none }

abbrev works : IdentityDriver
works = record {
  reads_users = true;
  writes_users = true;
  reads_keys = true;
  writes_keys = true;
  revokes = λ _. true;
}

abbrev tables : IdentityTables
tables = record { users = []; api_keys = [] }

abbrev files : Files
files = λ _. none

abbrev ann : User
ann = record {
  id = codes "u1";
  handle = codes "ann";
  role = codes "agent";
  active = true;
  sso_subject = [];
  created_at = 1;
  updated_at = 1;
}

abbrev result : KeyIssuanceResult
result = record {
  user = ann;
  api_key = record {
    id = codes "k1";
    user_id = codes "u1";
    key_hash = codes "tpl_ff";
    key_prefix = codes "tpl_ff";
    created_at = 1;
    expires_at = 1 + 90 * 86400 * 10 ^ 9;
    revoked_at = none;
    handle = none;
  };
  raw_key = codes "tpl_ff";
}

abbrev outcome : Option KeyIssuanceResult × IdentityTables × Files
outcome =
    run_issue join disk (codes "cat") (some (codes "home")) credentials works true (codes "u1")
      (codes "k1") (some (codes "ff")) 1 (codes "ann") tables files

gives :
    run_issue join disk
      (codes "cat")
      (some (codes "home"))
      credentials
      works
      true
      (codes "u1")
      (codes "k1")
      (some (codes "ff"))
      1
      (codes "ann")
      tables
      files
    ≡ (some result, outcome.1, outcome.2)
unfolding run_issue issue_api_key_for_handle get_user_by_handle create_user create_api_key ◌==◌ join
    api_key_from_row
gives = refl

apart :
    (key_path join (base_dir join (codes "home")) (codes "ann")
      == resolver_path join (base_dir join (codes "home")))
    ≡ false
unfolding join ◌==◌
apart = refl

is_there : get_user_by_id works (codes "u1") (outcome.1) ≡ ok ann
unfolding get_user_by_id run_issue issue_api_key_for_handle get_user_by_handle create_user
    create_api_key ◌==◌
is_there = refl

bears : bearer_token credentials works (codes "Bearer tpl_ff") ≡ some (codes "tpl_ff")
unfolding bearer_token has_prefix ◌==◌
bears = refl

run_issue-resolve_actor_example :
    HasFiles join (codes "cat") (codes "home") (codes "ann") (codes "tpl_ff") (outcome.2)
    × (resolve_actor credentials works (codes "Bearer tpl_ff") 9 (outcome.1) ≡ gate ann)
run_issue-resolve_actor_example =
    run_issue-resolve_actor join disk (codes "cat") (codes "home") credentials works works true
      (codes "u1") (codes "k1") (some (codes "ff")) 1 9 (codes "ann") (codes "Bearer tpl_ff") tables
      (outcome.1) files (outcome.2) result ann apart gives refl is_there refl bears
