-- ===== src/PublicApi/Usage/Rows.antt =====
-- The rows of machines and scan roots that a report writes (internal/domain/usage/repo.go).
use my_token.Base.{
  eqb, Text, ◌==◌, ==_iff, ==_refl, not, filter, ◌≡◌, refl, ap, ◌⊎◌, inl, inr, Bool, Bool-cases,
  true, false, ◌&&◌, List, [], ◌∷◌, any, All, ok, err, arith,
}
use my_token.Usage.Event.{Time}
use my_token.Usage.Repo.{
  Driver, MachineRow, ScanRootRow, exec_failed, upsert_machine, upsert_scan_root, replace_machine,
  replace_scan_root,
}
use my_token.Usage.Service.{ScanRootInput}

abbrev pub root_row : Text → Time → ScanRootInput → ScanRootRow
root_row install_id now sr = record {
  install_id = install_id;
  scan_root_path = sr.path;
  name = sr.name;
  source_type = sr.source_type;
  last_seen_at = now;
}

-- The table after the rows of some scan roots have gone in.
abbrev pub add_roots : Text → Time → List ScanRootInput → List ScanRootRow → List ScanRootRow
add_roots install_id now [] rows = rows
add_roots install_id now (sr ∷ srs) rows =
    add_roots install_id now srs (replace_scan_root (root_row install_id now sr) rows)

-- A row as one of some scan roots has it, last seen at an instant.
abbrev pub reported : List ScanRootInput → Time → ScanRootRow → Bool
reported srs now r =
    eqb r.last_seen_at now
    && any
        (λ sr.
          sr.path == r.scan_root_path && (sr.name == r.name && sr.source_type == r.source_type))
        srs

-- A row of this install and path that passes a test.
abbrev pub has_root : (ScanRootRow → Bool) → Text → Text → List ScanRootRow → Bool
has_root test install_id path rows =
    any (λ r. r.install_id == install_id && (r.scan_root_path == path && test r)) rows

has_root-replace_scan_root :
    (test : ScanRootRow → Bool) (install_id path : Text) (new : ScanRootRow)
    (rows : List ScanRootRow)
    → test new ≡ true
    → has_root test install_id path rows ≡ true
      ⊎ ((new.install_id ≡ install_id) × (new.scan_root_path ≡ path))
    → has_root test install_id path (replace_scan_root new rows) ≡ true
unfolding replace_scan_root
has_root-replace_scan_root test install_id path new [] passes h =
    ground (arith, h, passes, ==_iff new.install_id install_id, ==_iff new.scan_root_path path)
has_root-replace_scan_root test install_id path new (r ∷ rows) passes h = ground (
  arith,
  passes,
  has_root-replace_scan_root test install_id path new rows passes,
  ==_iff new.install_id install_id,
  ==_iff new.scan_root_path path,
  ==_iff r.install_id install_id,
  ==_iff r.scan_root_path path,
  ==_iff r.install_id new.install_id,
  ==_iff r.scan_root_path new.scan_root_path,
)

pub upsert_scan_root_lem :
    (drv : Driver) (install_id : Text) (now : Time) (sr : ScanRootInput) (rows : List ScanRootRow)
    → drv.writes ≡ true
    → upsert_scan_root drv install_id sr.path sr.name sr.source_type now rows
      ≡ (ok tt, replace_scan_root (root_row install_id now sr) rows)
unfolding upsert_scan_root
upsert_scan_root_lem drv install_id now sr rows w = rw w refl

pub upsert_machine_lem :
    (drv : Driver) (install_id hostname : Text) (now : Time) (rows : List MachineRow)
    → drv.writes ≡ true
    → upsert_machine drv install_id hostname now rows ≡ (
      ok tt,
      replace_machine
          (record { install_id = install_id; hostname = hostname; last_seen_at = now })
          rows,
    )
unfolding upsert_machine
upsert_machine_lem drv install_id hostname now rows w = rw w refl

pub upsert_machine_fails :
    (drv : Driver) (install_id hostname : Text) (now : Time) (rows : List MachineRow)
    → drv.writes ≡ false
    → upsert_machine drv install_id hostname now rows ≡ (err exec_failed, rows)
unfolding upsert_machine
upsert_machine_fails drv install_id hostname now rows w = rw w refl

module _ (test : ScanRootRow → Bool) (install_id : Text) (now : Time) where
  -- What a report writes passes the test.
  abbrev Pass : List ScanRootInput → Type 0
  Pass srs = All (λ sr. test (root_row install_id now sr) ≡ true) srs

  add_roots_keeps :
      (path : Text) (srs : List ScanRootInput) (rows : List ScanRootRow)
      → Pass srs
      → has_root test install_id path rows ≡ true
      → has_root test install_id path (add_roots install_id now srs rows) ≡ true
  add_roots_keeps path [] rows pass h = h
  add_roots_keeps path (sr ∷ srs) rows (p, pass) h =
      add_roots_keeps path srs _ pass (
        has_root-replace_scan_root test install_id path (root_row install_id now sr) rows p (inl h))

  pub add_roots-has_root :
      (srs : List ScanRootInput) (rows all : List ScanRootRow)
      → Pass srs
      → add_roots install_id now srs rows ≡ all
      → All (λ sr. has_root test install_id sr.path all ≡ true) srs
  add_roots-has_root [] rows all pass e = tt
  add_roots-has_root (sr ∷ srs) rows all (p, pass) e =
      let row : ScanRootRow = root_row install_id now sr in
      (
        rw (← e) (
            add_roots_keeps sr.path srs (replace_scan_root row rows) pass
              (has_root-replace_scan_root test install_id sr.path row rows p (inr (refl, refl)))),
        add_roots-has_root srs (replace_scan_root row rows) all pass e,
      )

-- What a report writes is as it was reported.
module _ (install_id : Text) (now : Time) where
  still_reported :
      (s : ScanRootInput) (all srs : List ScanRootInput)
      → Pass (reported all now) install_id now srs
      → Pass (reported (s ∷ all) now) install_id now srs
  still_reported s all [] pass = tt
  still_reported s all (sr ∷ srs) (p, pass) = (ground (arith, p), still_reported s all srs pass)

  pub all_reported : (srs : List ScanRootInput) → Pass (reported srs now) install_id now srs
  all_reported [] = tt
  all_reported (sr ∷ srs) = (
    ground (arith, ==_refl sr.path, ==_refl sr.name, ==_refl sr.source_type),
    still_reported sr srs srs (all_reported srs),
  )

abbrev machine_row : Text → Text → Time → MachineRow
machine_row install_id hostname now = record {
  install_id = install_id;
  hostname = hostname;
  last_seen_at = now;
}

-- The install has one row, the new one, and the others are as they were.
pub replaced :
    (install_id hostname : Text) (now : Time) (rows : List MachineRow)
    → filter
        (λ m. m.install_id == install_id)
        (replace_machine (machine_row install_id hostname now) rows)
      ≡ machine_row install_id hostname now ∷ []
unfolding replace_machine
replaced install_id hostname now [] = rw (==_refl install_id) refl
replaced install_id hostname now (m ∷ rows) = elim (Bool-cases (m.install_id == install_id)) [
  | inl same ↦ rw same (replaced install_id hostname now rows)
  | inr other ↦ rw (other, other) (replaced install_id hostname now rows)
]

pub kept_machines :
    (install_id hostname : Text) (now : Time) (rows : List MachineRow)
    → filter
        (λ m. not (m.install_id == install_id))
        (replace_machine (machine_row install_id hostname now) rows)
      ≡ filter (λ m. not (m.install_id == install_id)) rows
unfolding replace_machine
kept_machines install_id hostname now [] = rw (==_refl install_id) refl
kept_machines install_id hostname now (m ∷ rows) = elim (Bool-cases (m.install_id == install_id)) [
  | inl same ↦ rw same (kept_machines install_id hostname now rows)
  | inr other ↦ rw (other, other) (ap (λ l. m ∷ l) (kept_machines install_id hostname now rows))
]
