-- ===== src/Pricing/Examples.antt =====
-- Prices at concrete loads.
use skale_consensus.Prelude.{◌≡◌, ◌≤◌, some, none, refl, arith, update}
use skale_consensus.Pricing.Strategy.{
  load_percentage, adjustment, calculate_dynamic_price, default_strategy, Prices,
}
use skale_consensus.Pricing.Bounds.{calculate_dynamic_price-bounds}

-- An empty block after one at 200000 makes the price fall by seven per cent.
empty_block : calculate_dynamic_price default_strategy 200000 0 ≡ 186000
unfolding calculate_dynamic_price default_strategy adjustment load_percentage
empty_block = refl

calculate_dynamic_price-bounds_example :
    (100000 ≤ calculate_dynamic_price default_strategy 5 8192)
    × (calculate_dynamic_price default_strategy 5 8192 ≤ default_strategy.max_price)
unfolding default_strategy
calculate_dynamic_price-bounds_example =
    calculate_dynamic_price-bounds default_strategy 5 8192 (omega arith)

abbrev prices : Prices
prices = update (λ b. none) 4 (some 200000)
