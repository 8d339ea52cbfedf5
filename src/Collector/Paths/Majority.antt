-- ===== src/Collector/Paths/Majority.antt =====
-- Which git root wins the vote (`MajorityGitRoot` of internal/collector/path.go).
use mathlib.Core.Path.{subst}
use mathlib.Core.List.{Permᴰ, Memᴰ}
use mathlib.Core.List.Permᴰ
use my_token.Base.{
  ℕ, Text, ◌⊎◌, ◌∙◌, lt_text, ◌≡◌, Bool-cases, inl, inr, true, false, [], ◌∷◌, Map, All, Bool, refl,
  Option, none, some, lt_int64, if◌then◌else◌, not_lt_text_trans, lt_text-asymm, lt_text-total,
  arith,
}
use my_token.Collector.Paths.{beats, leader, majority_git_root}

-- `w` stands at least as high as every candidate.
abbrev Unbeaten : Map ℕ → Text × ℕ → Type 0
Unbeaten counts w = All (λ e. beats e w ≡ false) counts

beats_trans : (a b c : Text × ℕ) → beats a b ≡ false → beats b c ≡ false → beats a c ≡ false
unfolding beats
beats_trans (r, x) (s, y) (t, z) h k = ground (arith, not_lt_text_trans t s r)

beats_refl : (a : Text × ℕ) → beats a a ≡ false
unfolding beats
beats_refl (r, x) = ground (arith, lt_text-asymm r r)

beats-asymm : (a b : Text × ℕ) → beats a b ≡ true → beats b a ≡ false
unfolding beats
beats-asymm (r, x) (s, y) h = ground (arith, lt_text-asymm r s)

-- The conditional picks one of the two, so what holds of both holds of it.
if-keeps : (P : Text × ℕ → Type 0) (b : Bool) (e w : Text × ℕ) → P e → P w → P (if b then e else w)
if-keeps P true e w p q = p
if-keeps P false e w p q = q

leader-keeps :
    (P : Text × ℕ → Type 0) (w : Text × ℕ) (counts : Map ℕ)
    → P w
    → All P counts
    → P (leader w counts)
unfolding leader
leader-keeps P w [] p _ = p
leader-keeps P w (e ∷ counts) p (q, qs) =
    leader-keeps P (if beats e w then e else w) counts (if-keeps P (beats e w) e w q p) qs

next-Unbeaten :
    (e w : Text × ℕ)
    → (beats w (if beats e w then e else w) ≡ false)
      × (beats e (if beats e w then e else w) ≡ false)
next-Unbeaten e w = elim (Bool-cases (beats e w)) [
  | inl h ↦ rw h (beats-asymm e w h, beats_refl e)
  | inr h ↦ rw h (beats_refl w, h)
]

leader-Unbeaten :
    (w : Text × ℕ) (counts : Map ℕ)
    → (beats w (leader w counts) ≡ false) × Unbeaten counts (leader w counts)
unfolding leader
leader-Unbeaten w [] = (beats_refl w, tt)
leader-Unbeaten w (e ∷ counts) =
    let next = if beats e w then e else w in
    let (top, all) = leader-Unbeaten next counts in
    let (by_w, by_e) = next-Unbeaten e w in
    (
      beats_trans w next (leader next counts) by_w top,
      (beats_trans e next (leader next counts) by_e top, all),
    )

All-Permᴰ : (P : Text × ℕ → Type 0) {m m' : Map ℕ} → Permᴰ m m' → All P m → All P m'
All-Permᴰ P Permᴰ.nil h = h
All-Permᴰ P (Permᴰ.cons e p) (h, hs) = (subst P e h, All-Permᴰ P p hs)
All-Permᴰ P (Permᴰ.swap e f) (h, (k, hs)) = (subst P f k, (subst P e h, hs))
All-Permᴰ P (Permᴰ.trans p q) h = All-Permᴰ P q (All-Permᴰ P p h)

-- Neither of two leaders of the same votes beats the other, so they are the same root or none has
-- a vote.
same_winner :
    (a b : Text × ℕ) (c d : Option Text)
    → beats a b ≡ false
    → beats b a ≡ false
    → c ≡ (if lt_int64 0 (a.1) then some (a.0) else none)
    → d ≡ (if lt_int64 0 (b.1) then some (b.0) else none)
    → c ≡ d
unfolding beats
same_winner (r, x) (s, y) c d h k e f = ground (arith, lt_text-total r s)

-- The winner does not depend on the order in which the map is iterated.
pub majority_git_root_any_order :
    (counts counts' : Map ℕ)
    → Permᴰ counts counts'
    → majority_git_root counts ≡ majority_git_root counts'
unfolding majority_git_root
majority_git_root_any_order m m' p =
    let w : Text × ℕ = ([], 0) in
    let (top, all) = leader-Unbeaten w m in
    let (top', all') = leader-Unbeaten w m' in
    same_winner (leader w m) (leader w m') (majority_git_root m) (majority_git_root m')
      (leader-keeps (λ e. beats e (leader w m') ≡ false) w m top'
        (All-Permᴰ (λ e. beats e (leader w m') ≡ false) (Permᴰ.symm p) all'))
      (leader-keeps (λ e. beats e (leader w m) ≡ false) w m' top
        (All-Permᴰ (λ e. beats e (leader w m) ≡ false) p all))
      refl refl

-- The candidate `e` has fewer votes than `w`, or as many and not a smaller root.
abbrev pub IsBehind : Text × ℕ → Text × ℕ → Type 0
IsBehind w e =
    (lt_int64 (e.1) (w.1) ≡ true) ⊎ ((lt_int64 (w.1) (e.1) ≡ false) × (lt_text (e.0) (w.0) ≡ false))

-- What the code should give: a candidate with votes that all are behind, or no candidate has any.
abbrev pub IsElected : Map ℕ → Option Text → Type 0
IsElected counts none = All (λ e. lt_int64 0 (e.1) ≡ false) counts
IsElected counts (some root) =
    (votes : ℕ) × (Memᴰ (root, votes) counts
      × ((lt_int64 0 votes ≡ true) × All (IsBehind (root, votes)) counts))

All-map : (P Q : Text × ℕ → Type 0) (m : Map ℕ) → ((e : Text × ℕ) → P e → Q e) → All P m → All Q m
All-map P Q [] f _ = tt
All-map P Q (e ∷ m) f (p, ps) = (f e p, All-map P Q m f ps)

unbeaten-IsBehind : (w e : Text × ℕ) → lt_int64 0 (w.1) ≡ true → beats e w ≡ false → IsBehind w e
unfolding beats
unbeaten-IsBehind (r, x) (s, y) pos h = ground arith

unbeaten_zero :
    (w e : Text × ℕ) → lt_int64 0 (w.1) ≡ false → beats e w ≡ false → lt_int64 0 (e.1) ≡ false
unfolding beats
unbeaten_zero (r, x) (s, y) pos h = ground arith

leader-Memᴰ :
    (w : Text × ℕ) (counts : Map ℕ) → (leader w counts ≡ w) ⊎ Memᴰ (leader w counts) counts
unfolding leader
leader-Memᴰ w [] = inl refl
leader-Memᴰ w (e ∷ counts) = elim (leader-Memᴰ (if beats e w then e else w) counts) [
  | inr m ↦ inr (Memᴰ.tail m)
  | inl same ↦ elim (Bool-cases (beats e w)) [
    | inl h ↦ inr (Memᴰ.head (same ∙ (rw h refl)))
    | inr h ↦ inl (same ∙ (rw h refl))
  ]
]

-- The vote elects what it should: the root with the most votes, among equals the smallest, and
-- none only where no root has a vote.
pub majority_git_root-IsElected : (counts : Map ℕ) → IsElected counts (majority_git_root counts)
unfolding majority_git_root
majority_git_root-IsElected counts =
    let w : Text × ℕ = ([], 0) in
    let l = leader w counts in
    let (top, all) = leader-Unbeaten w counts in
    elim (Bool-cases (lt_int64 0 (l.1))) [
      | inr h ↦ rw h (
          All-map (λ e. beats e l ≡ false) (λ e. lt_int64 0 (e.1) ≡ false) counts
            (λ e b. unbeaten_zero l e h b) all)
      | inl h ↦ rw h (
        l.1,
        (
          elim (leader-Memᴰ w counts) [
            | inr m ↦ m
            | inl same ↦ (let none_won : lt_int64 0 (l.1) ≡ false = rw same refl in ground arith)
          ],
          (
            h,
            All-map (λ e. beats e l ≡ false) (IsBehind l) counts (λ e b. unbeaten-IsBehind l e h b)
                all,
          ),
        ),
      )
    ]
