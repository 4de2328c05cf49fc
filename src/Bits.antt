-- ===== src/Bits.antt =====
-- Machine words as the sequences of their binary digits: what `|`, `&`, `^` and `!` do to one bit.
mod Step
mod Bit
mod Masks
unfoldable pub use Bit.*
unfoldable pub use Masks.*
