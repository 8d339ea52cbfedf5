-- ===== src/Collector/Config/Loading.antt =====
-- What loading the configuration gives (internal/collector/config.go, LoadOrInitConfig).
use my_token.Base.{
  Text, Bool-cases, Option-cases, true, false, ◌==◌, ◌≡◌, refl, sym, ◌∙◌, ap, inl, inr, List, [],
  ◌∷◌, ◌++◌, All, Option, none, some, if◌then◌else◌,
}
use mathlib.Core.Path.{subst}
use my_token.Base.Files.{Write, succeeds, fails, write_file}
use my_token.Collector.Scan.{ScanPath, default_source_type}
use my_token.Collector.Config.{
  Config, with_source_types, with_defaults, with_install_id, write_config, load_or_init_config,
}

-- Every scan root has a type.
abbrev pub HasSourceTypes : List ScanPath → Type 0
HasSourceTypes paths = All (λ sp. (sp.source_type == []) ≡ false) paths

with_source_types-HasSourceTypes :
    (paths : List ScanPath) → HasSourceTypes (with_source_types paths)
unfolding with_source_types ◌==◌
with_source_types-HasSourceTypes [] = tt
with_source_types-HasSourceTypes (sp ∷ paths) = (named, with_source_types-HasSourceTypes paths)
  where
    named : ((if sp.source_type == [] then default_source_type else sp.source_type) == []) ≡ false
    named = elim (Bool-cases (sp.source_type == [])) [
      | inl empty ↦ rw empty refl
      | inr given ↦ rw given given
    ]

with_source_types_same :
    (paths : List ScanPath) → HasSourceTypes paths → with_source_types paths ≡ paths
unfolding with_source_types
with_source_types_same [] h = refl
with_source_types_same (sp ∷ paths) (given, h) =
    rw (given) (ap (λ (l : List ScanPath). sp ∷ l) (with_source_types_same paths h))

-- A configuration that is complete is not changed by the defaults.
abbrev pub IsComplete : Config → Type 0
IsComplete cfg = ((cfg.install_id == []) ≡ false) × HasSourceTypes cfg.scan_paths

with_defaults_same : (cfg : Config) → IsComplete cfg → with_defaults cfg ≡ cfg
unfolding with_defaults
with_defaults_same cfg (_, h) = rw (with_source_types_same cfg.scan_paths h) refl

module _ (unmarshal : Text → Option Config) (marshal_indent : Config → Option Text) where
  -- A file that decodes to a complete configuration is read as it is.
  load_complete :
      (raw : Text) (cfg : Config) (uuid : Text) (writes : Write)
      → IsComplete cfg
      → unmarshal raw ≡ some cfg
      → load_or_init_config unmarshal marshal_indent uuid writes (some raw) ≡ (some cfg, some raw)
  unfolding load_or_init_config
  load_complete raw cfg uuid writes (named, h) e =
      rw (e, load_or_init_config) (rw (with_defaults_same cfg (named, h)) (rw named refl))

  -- Loading a file that has an install id.
  load_named :
      (uuid raw : Text) (writes : Write) (decoded : Config)
      → unmarshal raw ≡ some decoded
      → (decoded.install_id == []) ≡ false
      → load_or_init_config unmarshal marshal_indent uuid writes (some raw)
        ≡ (some (with_defaults decoded), some raw)
  unfolding load_or_init_config with_defaults
  load_named uuid raw writes decoded e named = rw (e, load_or_init_config) (rw named refl)

  -- Loading a file without one.
  load_unnamed :
      (uuid raw : Text) (writes : Write) (decoded : Config)
      → unmarshal raw ≡ some decoded
      → (decoded.install_id == []) ≡ true
      → load_or_init_config unmarshal marshal_indent uuid writes (some raw) ≡ (
          let named = with_install_id uuid (with_defaults decoded) in
          let (written, file') = write_config unmarshal marshal_indent writes named (some raw) in
          if written then (some named, file') else (none, file'))
  unfolding load_or_init_config with_defaults
  load_unnamed uuid raw writes decoded e unnamed = rw (e, load_or_init_config) (rw unnamed refl)

  -- What the rest of a load does once the id was made.
  abbrev finish : Write → Config → Text → Option Config × Option Text
  finish writes named raw =
      let (written, file') = write_config unmarshal marshal_indent writes named (some raw) in
      if written then (some named, file') else (none, file')

  -- A configuration comes out only where it was written.
  finish_written :
      (writes : Write) (named cfg : Config) (raw : Text) (file' : Option Text)
      → finish writes named raw ≡ (some cfg, file')
      → (bytes : Text) × (named ≡ cfg)
        × (marshal_indent named ≡ some bytes)
        × (file' ≡ some (bytes ++ 10 ∷ []))
  unfolding write_config write_file
  finish_written (fails left) named cfg raw file' e = elim (Option-cases (marshal_indent named)) [
    | inl m ↦
        let r : finish (fails left) named raw ≡ (none, some raw) = rw (m, write_config) refl in cc
    | inr (bytes, m) ↦
        let r : finish (fails left) named raw ≡ (none, left) = rw (m, write_config) refl in cc
  ]
  finish_written succeeds named cfg raw file' e = elim (Option-cases (marshal_indent named)) [
    | inl m ↦ let r : finish succeeds named raw ≡ (none, some raw) = rw (m, write_config) refl in cc
    | inr (bytes, m) ↦
        let r : finish succeeds named raw ≡ (some named, some (bytes ++ 10 ∷ [])) =
          rw (m, write_config) refl in
        (bytes, cc, m, cc)
  ]

-- After a load that gives a configuration, under an install id that is not empty and an encoding
-- that decodes to the same configuration, the configuration has an install id and a type for every
-- scan root, and every later load gives it again and leaves the file as it is, whatever id it
-- brings and whether or not the file can be written.
pub load_or_init_config_again :
    (unmarshal : Text → Option Config) (marshal_indent : Config → Option Text) (uuid : Text)
    (writes : Write) (file file' : Option Text) (cfg : Config)
    → (uuid == []) ≡ false
    → ((bytes : Text) → marshal_indent cfg ≡ some bytes → unmarshal (bytes ++ 10 ∷ []) ≡ some cfg)
    → load_or_init_config unmarshal marshal_indent uuid writes file ≡ (some cfg, file')
    → IsComplete cfg
      × ((uuid' : Text) (writes' : Write)
          → load_or_init_config unmarshal marshal_indent uuid' writes' file' ≡ (some cfg, file'))
unfolding load_or_init_config with_defaults with_install_id
load_or_init_config_again unmarshal marshal_indent uuid writes none file' cfg id codec e =
    let r : load_or_init_config unmarshal marshal_indent uuid writes none ≡ (none, none) = refl in
    cc
load_or_init_config_again unmarshal marshal_indent uuid writes (some raw) file' cfg id codec e =
    elim (Option-cases (unmarshal raw)) [
      | inl d ↦
          let r : load_or_init_config unmarshal marshal_indent uuid writes (some raw)
              ≡ (none, some raw) =
            rw (d, load_or_init_config) refl in
          cc
      | inr (decoded, d) ↦ elim (Bool-cases (decoded.install_id == [])) [
        | inl unnamed ↦
            let (bytes, same, m, f) =
              finish_written unmarshal marshal_indent writes
                (with_install_id uuid (with_defaults decoded)) cfg raw file'
                (sym (load_unnamed unmarshal marshal_indent uuid raw writes decoded d unnamed)
                  ∙ e) in
            let complete : IsComplete cfg =
              subst IsComplete same (id, with_source_types-HasSourceTypes decoded.scan_paths) in
            let read : unmarshal (bytes ++ 10 ∷ []) ≡ some cfg =
              codec bytes (subst (λ c. marshal_indent c ≡ some bytes) same m) in
            (
              complete,
              λ uuid' writes'. rw (f) (
                  load_complete unmarshal marshal_indent (bytes ++ 10 ∷ []) cfg uuid' writes'
                    complete read),
            )
        | inr named ↦
            let r = load_named unmarshal marshal_indent uuid raw writes decoded d named in
            let same : with_defaults decoded ≡ cfg = cc in
            let f : file' ≡ some raw = cc in
            (
              subst IsComplete same (named, with_source_types-HasSourceTypes decoded.scan_paths),
              λ uuid' writes'. rw (f) (
                  load_named unmarshal marshal_indent uuid' raw writes' decoded d named
                  ∙ ap (λ (c : Config). (some c, some raw)) same),
            )
      ]
    ]
