-- ===== src/Std.antt =====
-- The parts of the Rust standard library that the source calls: text, numbers, and the type `f64`.
pub mod Text
pub mod Lines
pub mod Number
mod Float
unfoldable pub use Text.{
  Str, codes, str_eq, is_empty, starts_with, strip_prefix, trim, find, slice_to, slice_from,
  split_once, split, is_whitespace, len_utf8, cut_at,
}
unfoldable pub use Lines.{lines}
unfoldable pub use Number.{parse_u32, parse_i64, print_nat, print_int}
pub use Float.{Floats}
pub mod Slices
pub mod Trimming
pub mod Splitting
pub mod Numerals
