-- ===== src/Common/Bits.antt =====
-- Laws of the native bit operations: the equation for the lowest digit, and what follows from it.
mod Step
mod Fields
mod Xor
pub use Step.*
pub use Fields.*
pub use Xor.*
