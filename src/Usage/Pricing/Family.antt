-- ===== src/Usage/Pricing/Family.antt =====
-- Which family a model id has (internal/domain/usage/pricing.go, modelFamily).
use my_token.Base.{
  ◌↔◌, [], ==_iff, Text, codes, ◌==◌, contains, true, false, ◌≡◌, ◌≢◌, none, lookup, arith,
}
use my_token.Usage.Floats.{Float64}
use my_token.Usage.Pricing.{model_family, pricing_table, mentions, opus_new, opus_old}

-- Whatever the model id, its family is one of the six keys of the table.
pub model_family_listed :
    {F : Type 0} (fl : Float64 F) (to_lower : Text → Text) (m : Text)
    → lookup (model_family to_lower m) (pricing_table fl) ≢ none
unfolding model_family pricing_table lookup ◌==◌
model_family_listed fl to_lower m = ground arith

-- The legacy Opus rates are taken for exactly the ids that name Opus, no Fable or Mythos, an old
-- version and no new one.
opus_legacy_iff :
    (to_lower : Text → Text) (m : Text)
    → (model_family to_lower m ≡ codes "opus_legacy") ↔ (
        (m ≢ [])
        × (contains (to_lower m) (codes "fable") ≡ false)
        × (contains (to_lower m) (codes "mythos") ≡ false)
        × (contains (to_lower m) (codes "opus") ≡ true)
        × (mentions (to_lower m) opus_new ≡ false)
        × (mentions (to_lower m) opus_old ≡ true))
unfolding model_family
opus_legacy_iff to_lower m = ground (arith, ==_iff m [])
