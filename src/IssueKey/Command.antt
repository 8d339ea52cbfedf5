-- ===== src/IssueKey/Command.antt =====
-- The command itself (cmd/issue-key/main.go). Whether the database opened, and the home directory,
-- are arguments; what is printed is the result.
pub mod Issued
use my_token.Base.{
  Text, codes, Bool, true, false, not, List, [], ◌∷◌, Option, none, some, if◌then◌else◌, Result, ok,
  err,
}
use my_token.Usage.Event.{Time}
use my_token.Identity.Repo.{IdentityTables, IdentityDriver}
use my_token.Identity.Service.{
  Credentials, KeyIssuanceResult, RotateResult, issue_api_key_for_handle, rotate,
}
use my_token.IssueKey.KeyFile.{Files, KeyDisk, write_key_file, ensure_key_resolver}

module _ (join : List Text → Text) (disk : KeyDisk) (resolver_script : Text)
    (home : Option Text) where
  unfoldable pub my_token_base_dir : Option Text
  my_token_base_dir = elim home [
    | none ↦ none
    | some dir ↦ some (join (dir ∷ codes ".my-token" ∷ []))
  ]

  -- Whether both files are in place.
  unfoldable pub persist_key_and_resolver : Text → Text → Files → Bool × Files
  unfolding my_token_base_dir write_key_file ensure_key_resolver
  persist_key_and_resolver handle raw_key files = elim my_token_base_dir [
    | none ↦ (false, files)
    | some base ↦
        let (key, files') = write_key_file join disk base handle raw_key files in
        elim key [
          | none ↦ (false, files')
          | some _ ↦
              let (resolver, files'') = ensure_key_resolver join disk resolver_script base files' in
              (elim resolver [ none ↦ false | some _ ↦ true ], files'')
        ]
  ]

  module _ (cr : Credentials) (drv : IdentityDriver) (opened : Bool) where
    unfoldable pub run_issue :
        Text
        → Text
        → Option Text
        → Time
        → Text
        → IdentityTables
        → Files
        → Option KeyIssuanceResult × IdentityTables × Files
    unfolding persist_key_and_resolver
    run_issue user_uuid key_uuid random now handle t files =
        if not opened
        then (none, t, files)
        else (let (issued, t') =
              issue_api_key_for_handle cr drv user_uuid key_uuid random now handle t in
            elim issued [
              | err e ↦ (none, t', files)
              | ok result ↦
                  let (kept, files') = persist_key_and_resolver handle result.raw_key files in
                  (if kept then some result else none, t', files')
            ])

    unfoldable pub run_rotate :
        Text
        → Option Text
        → Time
        → Text
        → IdentityTables
        → Files
        → Option RotateResult × IdentityTables × Files
    unfolding persist_key_and_resolver
    run_rotate key_uuid random now handle t files =
        if not opened
        then (none, t, files)
        else (let (rotated, t') = rotate cr drv key_uuid random now handle t in
            elim rotated [
              | err e ↦ (none, t', files)
              | ok result ↦
                  let (kept, files') = persist_key_and_resolver handle result.raw_key files in
                  (if kept then some result else none, t', files')
            ])
