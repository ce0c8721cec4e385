-- ===== src/Text.antt =====
-- Go strings as the lists of their bytes (of their code points, where a module says so), with the
-- comparisons that the language gives them: `==`, and `<`, the lexicographic order of the bytes.
mod Fold
mod Split
unfoldable pub use Fold.*
unfoldable pub use Split.*
pub mod Laws
pub mod Decimal
