-- ===== src/Library.antt =====
-- internal/library: what the files of a library are: which of them count, what their names say, and
-- the items that they make, with the keys that order and identify them.
pub mod Data
pub mod Bytes
pub mod Names
pub mod Candidates
pub mod SortKey
pub mod Identity
pub mod Tools
pub mod Parts
pub mod Films
pub mod TrackNames
pub mod Tracks
pub mod Numbering
pub mod SeasonNames
pub mod ShowNames
pub mod Episodes
pub mod Resolve
