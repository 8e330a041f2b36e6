-- ===== src/Units.antt =====
-- types/units.rs: amounts of NEAR and of gas in text.
pub mod Defs
mod Decimals
pub mod Suffixes
pub mod Written
pub mod GasText
