-- ===== src/Text.antt =====
-- Text as Go's `string`: a list of bytes. The functions of package strings that the source calls.
mod Core
pub mod Maps
mod Trim
mod Search
pub mod Paths
pub mod Numbers
pub use Core.{Text, codes, text_eq_sound, text_eq_refl, text_eq_iff, newline, carriage_return}
unfoldable pub use Core.{text_eq, strip_prefix, has_prefix, trim_prefix}
unfoldable pub use Trim.{trim_left, trim_space, truncate}
pub use Trim.{length-truncate}
pub use Search.{Lacks, split-append, split-whole}
unfoldable pub use Search.{to_lower, contains, split, join, format_decimal}
