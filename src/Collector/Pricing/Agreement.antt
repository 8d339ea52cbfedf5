-- ===== src/Collector/Pricing/Agreement.antt =====
-- The collector's estimate against the server's cost (internal/collector/pricing.go and
-- internal/domain/usage/pricing.go).
use my_token.Base.{ℕ, Text, ◌≡◌, refl, ap, ◌∙◌, lookup, arith}
use my_token.Usage.Floats.{Float64}
use my_token.Usage.Pricing
use my_token.Collector.Pricing.{
  model_family, mentions, rate_for, billed, pricing_table, cost_for_usage,
}

same_family :
    (to_lower : Text → Text) (m : Text) → model_family to_lower m ≡ Pricing.model_family to_lower m
unfolding model_family Pricing.model_family mentions Pricing.mentions
same_family to_lower m = refl

module _ {F : Type 0} (fl : Float64 F) where
  same_rates :
      (k : Text)
      → ((rate_for fl k).input ≡ (Pricing.rate_for fl k).input)
        × ((rate_for fl k).output ≡ (Pricing.rate_for fl k).output)
        × ((rate_for fl k).cache_write_5m ≡ (Pricing.rate_for fl k).cache_write_5m)
        × ((rate_for fl k).cache_read ≡ (Pricing.rate_for fl k).cache_read)
  unfolding rate_for pricing_table Pricing.rate_for Pricing.pricing_table lookup
  same_rates k = ground arith

  -- For every model id and all counts, the collector's estimate is the cost that the server stores.
  pub cost_for_usage_agrees :
      (to_lower : Text → Text) (model : Text) (i o r w : ℕ)
      → cost_for_usage fl to_lower model i o r w ≡ Pricing.cost_for_usage fl to_lower model i o r w
  unfolding cost_for_usage Pricing.cost_for_usage billed Pricing.billed
  cost_for_usage_agrees to_lower model i o r w =
      let (a, b, c, d) = same_rates (Pricing.model_family to_lower model) in
      let e = same_family to_lower model in
      cc (
        ap (λ k. (rate_for fl k).input) e ∙ a,
        ap (λ k. (rate_for fl k).output) e ∙ b,
        ap (λ k. (rate_for fl k).cache_write_5m) e ∙ c,
        ap (λ k. (rate_for fl k).cache_read) e ∙ d,
      )
