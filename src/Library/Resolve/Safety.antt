-- ===== src/Library/Resolve/Safety.antt =====
-- Nothing that internal/library/resolve.go looks up is missing.
use atrium_go.Base.{true, List, ◌≡◌}
use atrium_go.Library.Data.{Library}
use atrium_go.Library.Tools.{Tools, done, normalised}
use atrium_go.Library.Tracks.{AlbumGroup, ArtistGroup, by_artist_key}
use atrium_go.Tables.{any_row}
use atrium_go.Text.{Text, nonempty}

module _ (tools : Tools) (lib : Library) where
  -- The artist of an album that names one is among the groups.
  abbrev Credited : List ArtistGroup → AlbumGroup → Type 0
  Credited artists g =
      (k : Text)
      → nonempty g.artist_name ≡ true
      → normalised tools lib g.artist_name ≡ done k
      → any_row (by_artist_key k) artists ≡ true
