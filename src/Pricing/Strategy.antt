-- ===== src/Pricing/Strategy.antt =====
-- DynamicPricingStrategy, ZeroPricingStrategy and PricingAgent.
use skale_consensus.Prelude.{
  ℕ, ◌+◌, ◌-◌, ◌*◌, ◌/◌, ◌%◌, ◌^◌, Option, none, some, ltb, leb, if◌then◌else◌, u64, update,
}
use skale_consensus.Prelude.Results.{Result, ok, throw, invalid_state, and_then}

-- MAX_TRANSACTIONS_PER_BLOCK
abbrev pub max_transactions_per_block : ℕ
max_transactions_per_block = 8192

-- `u256` of boost: unchecked, so it wraps.
abbrev pub u256 : ℕ → ℕ
u256 x = x % 2 ^ 256

-- A difference of two numbers below 2^256.
abbrev pub u256_minus : ℕ → ℕ → ℕ
u256_minus x y = u256 (x + (2 ^ 256 - y))

pub record DynamicPricingStrategy : Type 0 where
  pub min_price : ℕ
  pub max_price : ℕ
  pub optimal_load_percentage : ℕ
  pub adjustment_speed : ℕ

unfoldable pub load_percentage : ℕ → ℕ
load_percentage block_size = u64 (block_size * 100) / max_transactions_per_block

-- ( adjustmentSpeed * _previousPrice ) * ( difference of loads ) / 1000000
unfoldable pub adjustment : DynamicPricingStrategy → ℕ → ℕ → ℕ
adjustment s previous difference =
    u256 (u256 (s.adjustment_speed * previous) * difference) / 1000000

abbrev pub clamp : ℕ → ℕ → ℕ → ℕ
clamp lo hi price =
    let raised = if ltb price lo then lo else price in if ltb hi raised then hi else raised

-- DynamicPricingStrategy::calculatePrice, of the price before and the number of transactions.
unfoldable pub calculate_dynamic_price : DynamicPricingStrategy → ℕ → ℕ → ℕ
calculate_dynamic_price s previous block_size =
    let load = load_percentage block_size in
    let optimal = s.optimal_load_percentage in
    clamp s.min_price s.max_price (
      if ltb load optimal
      then u256_minus previous (adjustment s previous (optimal - load))
      else u256 (previous + adjustment s previous (load - optimal)))

pub data Strategy : Type 0 where
  dynamic : DynamicPricingStrategy → Strategy
  zero_price : Strategy

abbrev pub strategy_price : Strategy → ℕ → ℕ → ℕ
strategy_price (dynamic s) previous block_size = calculate_dynamic_price s previous block_size
strategy_price zero_price previous block_size = 0

-- The strategy that the constructor of PricingAgent makes with the default parameters: the maximum
-- is the negated value of a `uint64_t`.
unfoldable pub default_strategy : DynamicPricingStrategy
default_strategy = record {
  min_price = 100000;
  max_price = u64 (2 ^ 64 - 1000000000);
  optimal_load_percentage = 70;
  adjustment_speed = 1000;
}

-- The price database; reading a price that is not there throws.
abbrev pub Prices : Type 0
Prices = ℕ → Option ℕ

abbrev pub known_price : Option ℕ → Result ℕ
known_price none = throw invalid_state
known_price (some p) = ok p

-- PriceDB::readPrice: the first block has the price that the chain starts with.
unfoldable pub read_price : ℕ → ℕ → Prices → Result ℕ
read_price start_price b db = if leb b 1 then ok start_price else known_price (db b)

abbrev pub save_if_absent : Option ℕ → ℕ → ℕ → Prices → Prices
save_if_absent none p b db = update db b (some p)
save_if_absent (some old) p b db = db

-- PriceDB::savePrice: writeString leaves a price that is there.
unfoldable pub save_price : ℕ → ℕ → Prices → Prices
save_price p b db = save_if_absent (db b) p b db

-- PricingAgent::calculatePrice, with the price of the first block.
unfoldable pub calculate_price : Strategy → ℕ → ℕ → ℕ → Prices → Result (ℕ × Prices)
calculate_price s start_price block_size b db =
    let price : Result ℕ =
      if leb b 1
      then ok start_price
      else and_then (read_price start_price (b - 1) db)
          (λ old. ok (strategy_price s old block_size)) in
    and_then price (λ p. ok (p, save_price p b db))
