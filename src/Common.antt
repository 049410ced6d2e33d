-- ===== src/Common.antt =====
-- Names that the other modules share: the libraries' names passed on, text and results of Go.
pub mod Base
pub mod Strings
pub mod Gather
pub mod Cut
pub mod Show
pub mod Errors
pub mod Maps
pub use Base.*
pub use Gather.*
unfoldable pub use Strings.{
  Text, text, ◌==◌, strip_prefix, trim_prefix, cut, split_n, split, trim_space, fold_rune,
  equal_fold,
}
pub use Strings.{==_iff, ==_refl}
unfoldable pub use Show.{show_nat, hex_digit, show_hex}
unfoldable pub use Errors.{errorf, wrapf}
pub use Errors.{GoError, Outcome, ok, err, panic, Assoc}
unfoldable pub use Errors.{lookup, lookup_or, insert, remove}
pub mod Places
pub mod Shown
