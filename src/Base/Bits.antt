-- ===== src/Base/Bits.antt =====
-- `&`, `|` and `^` bit by bit, at every width. The libraries define them by a recursion on the
-- digits with fuel; `Step` drops the fuel, `Single` reads off the bits, `Masks` treats masks.
mod Step
mod Single
mod Masks
mod Xor
mod Sum
unfoldable pub use Single.*
pub use Masks.*
pub use Xor.*
pub use Sum.*
pub use Step.{bit_and_step}
