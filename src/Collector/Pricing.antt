-- ===== src/Collector/Pricing.antt =====
-- The collector's own copy of the pricing table (internal/collector/pricing.go), from which it
-- estimates costs. `strings.ToLower` is an argument.
pub mod Agreement
use my_token.Base.{
  ℕ, Text, codes, ◌==◌, contains, Bool, ◌||◌, List, [], ◌∷◌, any, Map, lookup, none, some,
  if◌then◌else◌,
}
use my_token.Usage.Floats.{Float64}

pub record ModelRate (F : Type 0) : Type 0 where
  pub input : F
  pub output : F
  pub cache_write_5m : F
  pub cache_read : F

abbrev pub default_family : Text
default_family = codes "sonnet"

-- The versions that the loops over `lower` look for.
abbrev pub opus_new : List Text
opus_new =
    codes "4-5"
    ∷ codes "4-6"
    ∷ codes "4-7"
    ∷ codes "4-8"
    ∷ codes "4.5"
    ∷ codes "4.6"
    ∷ codes "4.7"
    ∷ codes "4.8"
    ∷ []

abbrev pub opus_old : List Text
opus_old = codes "4-0" ∷ codes "4-1" ∷ codes "4.0" ∷ codes "4.1" ∷ []

abbrev pub haiku_old : List Text
haiku_old = codes "3-5" ∷ codes "3.5" ∷ []

-- `for _, v := range versions { if strings.Contains(lower, v) { … } }`
unfoldable pub mentions : Text → List Text → Bool
mentions lower versions = any (contains lower) versions

unfoldable pub model_family : (Text → Text) → Text → Text
model_family to_lower m =
    let lower = to_lower m in
    if m == []
    then default_family
    else if contains lower (codes "fable") || contains lower (codes "mythos")
    then codes "fable"
    else if contains lower (codes "opus")
    then (if mentions lower opus_new
        then codes "opus"
        else if mentions lower opus_old
        then codes "opus_legacy"
        else codes "opus")
    else if contains lower (codes "sonnet")
    then codes "sonnet"
    else if contains lower (codes "haiku")
    then (if mentions lower haiku_old then codes "haiku_legacy" else codes "haiku")
    else if contains lower (codes "synthetic")
    then codes "haiku"
    else default_family

module _ {F : Type 0} (fl : Float64 F) where
  -- Rates in hundredths of a dollar for a million tokens.
  abbrev pub rates : ℕ → ℕ → ℕ → ℕ → ModelRate F
  rates i o w r = record {
    input = fl.decimal i 2;
    output = fl.decimal o 2;
    cache_write_5m = fl.decimal w 2;
    cache_read = fl.decimal r 2;
  }

  unfoldable pub pricing_table : Map (ModelRate F)
  pricing_table =
      (codes "fable", rates 1000 5000 1250 100)
      ∷ (codes "opus", rates 500 2500 625 50)
      ∷ (codes "opus_legacy", rates 1500 7500 1875 150)
      ∷ (codes "sonnet", rates 300 1500 375 30)
      ∷ (codes "haiku", rates 100 500 125 10)
      ∷ (codes "haiku_legacy", rates 80 400 100 8)
      ∷ []

  -- `pricingTable[k]`: the zero value where the key is missing.
  unfoldable pub rate_for : Text → ModelRate F
  rate_for k = elim (lookup k pricing_table) [ some r ↦ r | none ↦ rates 0 0 0 0 ]

  -- `float64(n) * rate / 1e6`
  unfoldable pub billed : ℕ → F → F
  billed n r = fl.over (fl.times (fl.of_int64 n) r) (fl.decimal 1000000 0)

  -- Arguments: model, input, output, cache read and cache creation tokens.
  unfoldable pub cost_for_usage : (Text → Text) → Text → ℕ → ℕ → ℕ → ℕ → F
  cost_for_usage to_lower model i o r w =
      let rate = rate_for (model_family to_lower model) in
      fl.plus
        (fl.plus (fl.plus (billed i rate.input) (billed o rate.output)) (billed r rate.cache_read))
        (billed w rate.cache_write_5m)
