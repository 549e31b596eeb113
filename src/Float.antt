-- ===== src/Float.antt =====
-- `f64`. The program's floating-point operations are an interface: their rounding is that of the
-- hardware and of the mathematical library, and only named laws of it are used.
mod Laws
mod FixedPoint
pub use Laws.*
pub use FixedPoint.*
