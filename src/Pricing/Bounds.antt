-- ===== src/Pricing/Bounds.antt =====
-- The prices of DynamicPricingStrategy and PricingAgent: bounds and direction.
use skale_consensus.Prelude.{
  ℕ, ◌+◌, ◌-◌, ◌%◌, ◌^◌, ◌≡◌, ◌≤◌, ◌<◌, Option, none, some, arith, ap, ◌∙◌,
}
use skale_consensus.Pricing.Strategy.{
  u256, u256_minus, DynamicPricingStrategy, load_percentage, adjustment, calculate_dynamic_price,
}
use native.Mathlib.Nat.{mod-eq_of_lt, mod-eq-sub-mod}

-- Whatever the arithmetic does, the price is between the two bounds.
pub calculate_dynamic_price-bounds :
    (s : DynamicPricingStrategy) (previous block_size : ℕ)
    → s.min_price ≤ s.max_price
    → (s.min_price ≤ calculate_dynamic_price s previous block_size)
      × (calculate_dynamic_price s previous block_size ≤ s.max_price)
unfolding calculate_dynamic_price
calculate_dynamic_price-bounds s previous block_size h = (ground (arith, h), ground (arith, h))

u256_minus-exact : (x y : ℕ) → y ≤ x → x < 2 ^ 256 → u256_minus x y ≡ x - y
u256_minus-exact x y h small = whole ∙ mod-eq-sub-mod (omega arith) ∙ mod-eq_of_lt below ∙ rest
  where
    whole : u256 (x + (2 ^ 256 - y)) ≡ ((x - y) + 2 ^ 256) % 2 ^ 256
    whole = ap u256 (omega arith)

    below : ((x - y) + 2 ^ 256) - 2 ^ 256 < 2 ^ 256
    below = omega arith

    rest : ((x - y) + 2 ^ 256) - 2 ^ 256 ≡ x - y
    rest = omega arith

-- A block with less than the optimal load does not raise the price, one with the optimal load or
-- more does not lower it, as long as the price is within the bounds and the arithmetic does not wrap.
pub calculate_dynamic_price-follows_load :
    (s : DynamicPricingStrategy) (previous block_size : ℕ)
    → s.min_price ≤ previous
    → previous ≤ s.max_price
    → previous < 2 ^ 255
    → let load = load_percentage block_size in
      let optimal = s.optimal_load_percentage in
      adjustment s previous (optimal - load) ≤ previous
      → adjustment s previous (load - optimal) < 2 ^ 255
      → (load < optimal → calculate_dynamic_price s previous block_size ≤ previous)
        × (optimal ≤ load → previous ≤ calculate_dynamic_price s previous block_size)
unfolding calculate_dynamic_price
calculate_dynamic_price-follows_load s previous block_size lo hi small down up =
    (λ idle. ground (arith, idle, falls), λ busy. ground (arith, busy, rises))
  where
    falls :
        u256_minus previous
          (adjustment s previous (s.optimal_load_percentage - load_percentage block_size))
        ≤ previous
    falls = omega (
      arith,
      u256_minus-exact previous
          (adjustment s previous (s.optimal_load_percentage - load_percentage block_size)) down
          (omega (arith, small)),
    )

    rises :
        u256 (
          previous + adjustment s previous (load_percentage block_size - s.optimal_load_percentage))
        ≡ previous + adjustment s previous (load_percentage block_size - s.optimal_load_percentage)
    rises = mod-eq_of_lt (omega (arith, small, up))

-- The price that stands in the database after a new one is saved.
abbrev pub kept_price : Option ℕ → ℕ → ℕ
kept_price none p = p
kept_price (some old) p = old
