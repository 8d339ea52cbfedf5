-- ===== src/IssueKey/Command/Issued.antt =====
-- What issuing a key leaves (cmd/issue-key/main.go).
use mathlib.Core.Path.{subst}
use my_token.Base.{
  ◌+◌, Text, codes, ◌==◌, ==_iff, ==_refl, leb, ◌≡◌, refl, sym, ◌∙◌, ap, Bool, Bool-cases,
  Option-cases, true, false, inl, inr, List, [], ◌∷◌, Option, none, some, Result, ok, err,
}
use my_token.Base.Files.{Write, succeeds, fails, write_file}
use my_token.Usage.Event.{Time}
use my_token.Identity.Repo.{User, RepoError, IdentityTables, IdentityDriver, get_user_by_id}
use my_token.Identity.Service.{
  Credentials, KeyIssuanceResult, gate, bearer_token, resolve_actor, issue_api_key_for_handle,
  api_key_ttl,
}
use my_token.Identity.Service.Issuing.{resolve_actor-issue_api_key_for_handle}
use my_token.IssueKey.KeyFile.{Files, KeyDisk, put, write_at, write_key_file, ensure_key_resolver}
use my_token.IssueKey.Command.{my_token_base_dir, persist_key_and_resolver, run_issue}

put_here : (path : Text) (file : Option Text) (files : Files) → put path file files path ≡ file
unfolding put
put_here path file files = rw (==_refl path) refl

put_there :
    (path other : Text) (file : Option Text) (files : Files)
    → (other == path) ≡ false
    → put path file files other ≡ files other
unfolding put
put_there path other file files e = rw (e) refl

module _ (disk : KeyDisk) where
  -- A write that succeeds leaves the bytes there and every other file as it was.
  write_at_lem :
      (path bytes out : Text) (files : Files)
      → (write_at disk path bytes files).0 ≡ some out
      → ((write_at disk path bytes files).1 path ≡ some bytes)
        × ((other : Text)
            → (other == path) ≡ false
            → (write_at disk path bytes files).1 other ≡ files other)
  unfolding write_at write_file
  write_at_lem path bytes out files e = go (disk.writes path) refl
    where
      go :
          (w : Write)
          → disk.writes path ≡ w
          → ((write_at disk path bytes files).1 path ≡ some bytes)
            × ((other : Text)
                → (other == path) ≡ false
                → (write_at disk path bytes files).1 other ≡ files other)
      go (fails left) r =
          let none_left : (write_at disk path bytes files).0 ≡ none = rw (r) refl in cc
      go succeeds r =
          rw (r)
            (put_here path (some bytes) files, λ other d. put_there path other (some bytes) files d)

module _ (join : List Text → Text) where
  abbrev pub base_dir : Text → Text
  base_dir dir = join (dir ∷ codes ".my-token" ∷ [])

  -- Where the two files are.
  abbrev pub key_path : Text → Text → Text
  key_path base handle = join (join (base ∷ codes "keys" ∷ []) ∷ handle ∷ [])

  abbrev pub resolver_path : Text → Text
  resolver_path base = join (join (base ∷ codes "bin" ∷ []) ∷ codes "key" ∷ [])

module _ (join : List Text → Text) (disk : KeyDisk) where
  write_key_file_lem :
      (base handle raw out : Text) (files : Files)
      → (write_key_file join disk base handle raw files).0 ≡ some out
      → (write_key_file join disk base handle raw files).1 (key_path join base handle) ≡ some raw
  unfolding write_key_file
  write_key_file_lem base handle raw out files e =
      elim (Bool-cases (disk.makes (join (base ∷ codes "keys" ∷ [])))) [
        | inr m ↦
            let r : write_key_file join disk base handle raw files ≡ (none, files) = rw (m) refl in
            cc
        | inl m ↦
            let r : write_key_file join disk base handle raw files
                ≡ write_at disk (key_path join base handle) raw files =
              rw (m) refl in
            subst (λ (o : Option Text × Files). o.1 (key_path join base handle) ≡ some raw) (sym r)
              (write_at_lem disk (key_path join base handle) raw out files
                (ap (λ (o : Option Text × Files). o.0) (sym r) ∙ e)).0
      ]

  -- The script is in place, and no other file has changed.
  abbrev IsInPlace : Text → Text → Files → Option Text × Files → Type 0
  IsInPlace script base files out =
      (out.1 (resolver_path join base) ≡ some script)
      × ((other : Text) → (other == resolver_path join base) ≡ false → out.1 other ≡ files other)

  ensure_key_resolver_lem :
      (script base out : Text) (files : Files)
      → (ensure_key_resolver join disk script base files).0 ≡ some out
      → IsInPlace script base files (ensure_key_resolver join disk script base files)
  unfolding ensure_key_resolver
  ensure_key_resolver_lem script base out files e =
      let call : Option Text × Files = ensure_key_resolver join disk script base files in
      let written : call ≡ write_at disk (resolver_path join base) script files
          → IsInPlace script base files call =
        λ r. subst (IsInPlace script base files) (sym r) (
          write_at_lem disk (resolver_path join base) script out files
            (ap (λ (o : Option Text × Files). o.0) (sym r) ∙ e)) in
      elim (Bool-cases (disk.makes (join (base ∷ codes "bin" ∷ [])))) [
        | inr m ↦ let r : call ≡ (none, files) = rw (m) refl in cc
        | inl m ↦ elim (Bool-cases (disk.reads (resolver_path join base))) [
          | inr u ↦ let r : call ≡ (none, files) = rw (m, u) refl in cc
          | inl u ↦ elim (Option-cases (files (resolver_path join base))) [
            | inl f ↦ written (rw (m, u) (rw (f) refl))
            | inr (existing, f) ↦ elim (Bool-cases (existing == script)) [
              | inr stale ↦ written (rw (m, u) (rw (f) (rw (stale) refl)))
              | inl current ↦
                  let r : call ≡ (some (resolver_path join base), files) =
                    rw (m, u) (rw (f) (rw (current) refl)) in
                  subst (IsInPlace script base files) (sym r)
                    (f ∙ ap some ((==_iff existing script).0 current), λ other d. refl)
            ]
          ]
        ]
      ]

module _ (join : List Text → Text) (script dir : Text) where
  -- Both files are in place.
  abbrev pub HasFiles : Text → Text → Files → Type 0
  HasFiles handle raw files =
      (files (key_path join (base_dir join dir) handle) ≡ some raw)
      × (files (resolver_path join (base_dir join dir)) ≡ some script)

module _ (join : List Text → Text) (disk : KeyDisk) (script dir : Text) where
  persist_key_and_resolver_lem :
      (handle raw : Text) (files : Files)
      → (key_path join (base_dir join dir) handle == resolver_path join (base_dir join dir)) ≡ false
      → (persist_key_and_resolver join disk script (some dir) handle raw files).0 ≡ true
      → HasFiles join script dir handle raw
          ((persist_key_and_resolver join disk script (some dir) handle raw files).1)
  unfolding persist_key_and_resolver my_token_base_dir
  persist_key_and_resolver_lem handle raw files apart e =
      let call : Bool × Files =
        persist_key_and_resolver join disk script (some dir) handle raw files in
      let key : Option Text × Files =
        write_key_file join disk (base_dir join dir) handle raw files in
      let rest : Option Text × Files =
        ensure_key_resolver join disk script (base_dir join dir) key.1 in
      elim (Option-cases (key.0)) [
        | inl k ↦ let r : call ≡ (false, key.1) = rw (k, persist_key_and_resolver) refl in cc
        | inr (out, k) ↦ elim (Option-cases (rest.0)) [
          | inl s ↦
              let r : call ≡ (false, rest.1) = rw (k, persist_key_and_resolver) (rw (s) refl) in cc
          | inr (out', s) ↦
              let r : call ≡ (true, rest.1) = rw (k, persist_key_and_resolver) (rw (s) refl) in
              let (there, kept) =
                ensure_key_resolver_lem join disk script (base_dir join dir) out' key.1 s in
              subst (λ (o : Bool × Files). HasFiles join script dir handle raw o.1) (sym r)
                (
                  kept (key_path join (base_dir join dir) handle) apart
                      ∙ write_key_file_lem join disk (base_dir join dir) handle raw out files k,
                  there,
                )
        ]
      ]

  module _ (cr : Credentials) (drv : IdentityDriver) (user_uuid key_uuid : Text)
      (random : Option Text) (now : Time) (handle : Text) (t : IdentityTables) where
    -- What a run that gives a key has done.
    abbrev IsIssued : Option KeyIssuanceResult × IdentityTables × Files → Type 0
    IsIssued out = elim out.0 [
      | none ↦ Unit {0}
      | some result ↦
          HasFiles join script dir handle result.raw_key out.2
          × (issue_api_key_for_handle cr drv user_uuid key_uuid random now handle t
              ≡ (ok result, out.1))
    ]

    run_issue-IsIssued :
        (opened : Bool) (files : Files)
        → (key_path join (base_dir join dir) handle == resolver_path join (base_dir join dir))
          ≡ false
        → IsIssued (
            run_issue join disk script
              (some dir)
              cr
              drv
              opened
              user_uuid
              key_uuid
              random
              now
              handle
              t
              files)
    unfolding run_issue
    run_issue-IsIssued false files apart = tt
    run_issue-IsIssued true files apart =
        go (issue_api_key_for_handle cr drv user_uuid key_uuid random now handle t) refl
      where
        go :
            (out : Result RepoError KeyIssuanceResult × IdentityTables)
            → issue_api_key_for_handle cr drv user_uuid key_uuid random now handle t ≡ out
            → IsIssued (
                run_issue join disk script
                  (some dir)
                  cr
                  drv
                  true
                  user_uuid
                  key_uuid
                  random
                  now
                  handle
                  t
                  files)
        go (err e, t') r = rw (r, run_issue) tt
        go (ok result, t') r =
            elim (Bool-cases (
              (persist_key_and_resolver join disk script (some dir) handle result.raw_key
                files).0)) [
                  | inr k ↦ rw (r, run_issue) (rw (k) tt)
                  | inl k ↦
                      let tables : issue_api_key_for_handle cr drv user_uuid key_uuid random now
                            handle t
                          ≡ (
                            ok result,
                            (issue_api_key_for_handle cr drv user_uuid key_uuid random now handle
                                t).1,
                          ) =
                        cc in
                      rw (r, run_issue)
                        (rw (k) (
                          persist_key_and_resolver_lem handle result.raw_key files apart k,
                          tables,
                        ))
                ]

-- What the command leaves where it issues a key and the two paths differ: the key file has the raw
-- key, the resolver script is in place, and a request whose bearer token is that key, made before
-- the key expires against a database that answers, comes to the gate as the user of the key.
pub run_issue-resolve_actor :
    (join : List Text → Text) (disk : KeyDisk) (script dir : Text) (cr : Credentials)
    (drv drv' : IdentityDriver) (opened : Bool) (user_uuid key_uuid : Text) (random : Option Text)
    (now now' : Time) (handle header : Text) (t t' : IdentityTables) (files files' : Files)
    (result : KeyIssuanceResult) (user : User)
    → (key_path join (base_dir join dir) handle == resolver_path join (base_dir join dir)) ≡ false
    → run_issue join disk script
        (some dir)
        cr
        drv
        opened
        user_uuid
        key_uuid
        random
        now
        handle
        t
        files
      ≡ (some result, t', files')
    → drv'.reads_keys ≡ true
    → get_user_by_id drv' result.user.id t' ≡ ok user
    → leb (now + api_key_ttl) now' ≡ false
    → bearer_token cr drv' header ≡ some result.raw_key
    → HasFiles join script dir handle result.raw_key files'
      × (resolve_actor cr drv' header now' t' ≡ gate user)
run_issue-resolve_actor join disk script dir cr drv drv' opened user_uuid key_uuid random now now'
      handle header t t' files files' result user apart e reads owner alive bearer =
    let (kept, issued) =
      subst (IsIssued join disk script dir cr drv user_uuid key_uuid random now handle t) e (
        run_issue-IsIssued join disk script dir cr drv user_uuid key_uuid random now handle t opened
          files apart) in
    (
      kept,
      resolve_actor-issue_api_key_for_handle cr drv drv' user_uuid key_uuid random now now' handle
          header t t' result user issued reads owner alive bearer,
    )
