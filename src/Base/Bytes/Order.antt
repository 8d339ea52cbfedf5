-- ===== src/Base/Bytes/Order.antt =====
-- Lemmas on the byte order of strings.
use mathlib.Core.Path.{◌≡◌}
use mathlib.Core.Bool.{true, false}
use mathlib.Core.List.{[], ◌∷◌}
use native.Mathlib.Omega.{arith}
use my_token.Base.Bytes.{Text, lt_text}

pub lt_text-asymm : (s t : Text) → lt_text s t ≡ true → lt_text t s ≡ false
unfolding lt_text
lt_text-asymm [] [] h = ground arith
lt_text-asymm (a ∷ s) [] h = ground arith
lt_text-asymm [] (b ∷ t) h = ground arith
lt_text-asymm (a ∷ s) (b ∷ t) h = ground (arith, lt_text-asymm s t)

-- `not (b < a)` is transitive.
pub not_lt_text_trans :
    (r s t : Text) → lt_text s r ≡ false → lt_text t s ≡ false → lt_text t r ≡ false
unfolding lt_text
not_lt_text_trans [] s [] h k = ground arith
not_lt_text_trans [] s (c ∷ t) h k = ground arith
not_lt_text_trans (a ∷ r) [] t h k = ground arith
not_lt_text_trans (a ∷ r) (b ∷ s) [] h k = ground arith
not_lt_text_trans (a ∷ r) (b ∷ s) (c ∷ t) h k = ground (arith, not_lt_text_trans r s t)

-- Two strings of which neither is less are equal.
pub lt_text-total : (s t : Text) → lt_text s t ≡ false → lt_text t s ≡ false → s ≡ t
unfolding lt_text
lt_text-total [] [] h k = ground arith
lt_text-total [] (b ∷ t) h k = ground arith
lt_text-total (a ∷ s) [] h k = ground arith
lt_text-total (a ∷ s) (b ∷ t) h k = ground (arith, lt_text-total s t)
