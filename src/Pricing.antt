-- ===== src/Pricing.antt =====
-- pricing: the price of a block from the price and the load of the block before.
pub mod Strategy
pub mod Bounds
mod Examples
