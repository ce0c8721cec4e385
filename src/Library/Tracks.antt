-- ===== src/Library/Tracks.antt =====
-- internal/library/music.go: the artists, the albums and the tracks of a library. The maps are the
-- lists of their groups in the order they were made, each with its key. What the files themselves say
-- comes from a source of tags.
use atrium_go.Base.{ℕ, Bool, not, ◌&&◌, Option, none, some, List, [], ◌∷◌, ◌++◌, map, if◌then◌else◌}
use atrium_go.Base.Int.{ℤ, pos}
use atrium_go.Library.Bytes.{or_else, base_name, dir_name, stem_of_path, join_key}
use atrium_go.Library.Data.{Library, Entry, Reading}
use atrium_go.Library.Tools.{
  Tools, Attempt, done, crashed, ◌>>=◌, traverse, blank, file_at, year_number, trim_space, keyed,
  normalised, identified,
}
use atrium_go.Ports.Items.{ScannedItem}
use atrium_go.Tables.{find_row}
use atrium_go.Text.{Text, codes, str_eq, nonempty}
use atrium_go.Library.TrackNames.{
  parse_track_name, album_name_from_directory, parse_disc_directory_name,
}

pub record Tags : Type 0 where
  pub album_artist : Text
  pub artist : Text
  pub album : Text
  pub title : Text
  pub track : Option ℤ
  pub disc : Option ℤ

-- `TagSource`.
abbrev pub TagSource : Type 0
TagSource = ℕ → Text → Tags

-- `NoTags`.
abbrev pub no_tags : TagSource
no_tags root path = record {
  album_artist = [];
  artist = [];
  album = [];
  title = [];
  track = none;
  disc = none;
}

abbrev pub various_artists : Text
various_artists = codes "Various Artists"

abbrev pub signed : Option ℕ → Option ℤ
signed none = none
signed (some n) = some (pos n)

pub record MusicCandidate : Type 0 where
  pub root : ℕ
  pub entry : Entry
  pub album_dir : Text
  pub artist_dir : Text
  pub album_name : Text
  pub album_year : Option ℕ
  pub artist_name : Text
  pub track_artist : Text
  pub title : Text
  pub track : Option ℤ
  pub disc : Option ℤ

-- `dirName`, where that is not the root: empty there.
abbrev pub directory_of : Text → Text
directory_of path = let dir = dir_name path in if str_eq dir (codes ".") then [] else dir

abbrev pub disc_below : Text → Option ℕ → Text × Option ℕ
disc_below dir none = (dir, none)
disc_below dir (some n) = (directory_of dir, some n)

-- The directory of the album of a file, and the disc where that is a directory beneath it.
unfoldable pub album_directory : Text → Text × Option ℕ
unfolding dir_name base_name parse_disc_directory_name
album_directory path =
    let dir = directory_of path in
    if nonempty dir && nonempty (directory_of dir)
    then disc_below dir (parse_disc_directory_name (base_name dir))
    else (dir, none)

abbrev pub artist_directory : Text → Text
artist_directory album_dir = if nonempty album_dir then directory_of album_dir else []

abbrev pub either : Text → Text → Text
either tag own = if nonempty tag then tag else own

pub record AlbumGroup : Type 0 where
  pub album_key : Text
  pub artist_name : Text
  pub name : Text
  pub year : Option ℕ
  pub path : Text
  pub root : ℕ
  pub track_artists : List Text
  pub first : MusicCandidate
  pub others : List MusicCandidate

pub record ArtistGroup : Type 0 where
  pub artist_key : Text
  pub id : Text
  pub name : Text
  pub path : Text
  pub root : ℕ

pub record Sorted : Type 0 where
  pub albums : List AlbumGroup
  pub loose : List MusicCandidate

abbrev pub by_album_key : Text → AlbumGroup → Bool
by_album_key k g = str_eq g.album_key k

abbrev pub by_artist_key : Text → ArtistGroup → Bool
by_artist_key k g = str_eq g.artist_key k

abbrev pub named_artist : MusicCandidate → List Text
named_artist c = if nonempty c.track_artist then c.track_artist ∷ [] else []

abbrev pub add_track : MusicCandidate → AlbumGroup → AlbumGroup
add_track c g = record g {
  others = g.others ++ c ∷ [];
  track_artists = g.track_artists ++ named_artist c;
}

abbrev pub fresh_album : Text → MusicCandidate → AlbumGroup
fresh_album k c = record {
  album_key = k;
  artist_name = c.artist_name;
  name = c.album_name;
  year = c.album_year;
  path = c.album_dir;
  root = c.root;
  track_artists = named_artist c;
  first = c;
  others = [];
}

-- The first of the albums with the key takes the track; there is a new one where none has it.
unfoldable pub put_track : Text → MusicCandidate → List AlbumGroup → List AlbumGroup
put_track k c [] = fresh_album k c ∷ []
put_track k c (g ∷ gs) = if by_album_key k g then add_track c g ∷ gs else g ∷ put_track k c gs

-- The loop of `attributionFromTrackArtists`.
unfoldable pub attribution_from : Text → List Text → Text
attribution_from first [] = first
attribution_from first (name ∷ names) =
    let rest = attribution_from (if nonempty first then first else name) names in
    if nonempty first && not (str_eq name first) then various_artists else rest

-- `attributionFromTrackArtists`.
unfoldable pub attribution_from_track_artists : List Text → Text
unfolding attribution_from
attribution_from_track_artists = attribution_from []

abbrev pub attributed : AlbumGroup → AlbumGroup
attributed g = record g {
  artist_name = either g.artist_name (attribution_from_track_artists g.track_artists);
}

abbrev pub concat : List (List ScannedItem) → List ScannedItem
concat [] = []
concat (xs ∷ xss) = xs ++ concat xss

module _ (tools : Tools) (lib : Library) where
  -- `classifyMusic`.
  unfoldable pub classify_music : ℕ → Entry → Tags → MusicCandidate
  unfolding album_directory parse_track_name album_name_from_directory base_name stem_of_path
  classify_music root e tags =
      let (album_dir, disc) = album_directory e.path in
      let artist_dir = artist_directory album_dir in
      let (title, track) = parse_track_name tools (stem_of_path e.path) in
      let (directory_name, year) = album_name_from_directory tools (base_name album_dir) in
      record {
        root = root;
        entry = e;
        album_dir = album_dir;
        artist_dir = artist_dir;
        album_name = either tags.album (if nonempty album_dir then directory_name else []);
        album_year = if not (nonempty tags.album) && nonempty album_dir then year else none;
        artist_name =
            either tags.album_artist
              (if nonempty artist_dir then trim_space tools (base_name artist_dir) else []);
        track_artist = tags.artist;
        title = either tags.title title;
        track = or_else tags.track (signed track);
        disc = or_else tags.disc (signed disc);
      }

  -- The body of the first loop of `resolveMusic`.
  unfoldable pub sort_track : MusicCandidate → Sorted → Attempt Sorted
  unfolding put_track
  sort_track c st =
      if not (nonempty c.album_name)
      then done (record st { loose = st.loose ++ c ∷ [] })
      else (normalised tools lib c.artist_name >>= λ artist_key.
          normalised tools lib c.album_name >>= λ album_key.
          done
            (record st { albums = put_track (join_key (artist_key ∷ album_key ∷ [])) c st.albums }))

  unfoldable pub sort_tracks : List MusicCandidate → Sorted → Attempt Sorted
  unfolding sort_track
  sort_tracks [] st = done st
  sort_tracks (c ∷ cs) st = sort_track c st >>= λ u. sort_tracks cs u

  abbrev pub classified_entries : TagSource → ℕ → List Entry → List MusicCandidate
  classified_entries tags root es = map (λ e. classify_music root e (tags root e.path)) es

  unfoldable pub music_candidates : TagSource → List Reading → List MusicCandidate
  unfolding classify_music
  music_candidates tags [] = []
  music_candidates tags (r ∷ rs) =
      classified_entries tags r.root r.entries ++ music_candidates tags rs

  abbrev pub artist_with :
      AlbumGroup → Text → List ArtistGroup → Option ArtistGroup → List ArtistGroup
  artist_with g k artists (some a) = artists
  artist_with g k artists none =
      artists
      ++ record {
        artist_key = k;
        id = identified tools lib (codes "MusicArtist") k;
        name = g.artist_name;
        path = g.first.artist_dir;
        root = g.root;
      }
        ∷ []

  -- The loop over the albums that makes the artists.
  unfoldable pub artists_of : List AlbumGroup → List ArtistGroup → Attempt (List ArtistGroup)
  artists_of [] artists = done artists
  artists_of (g ∷ gs) artists =
      if not (nonempty g.artist_name)
      then artists_of gs artists
      else (normalised tools lib g.artist_name >>= λ k.
          artists_of gs (artist_with g k artists (find_row (by_artist_key k) artists)))

  abbrev pub artist_item : Text → ArtistGroup → ScannedItem
  artist_item parent a = keyed tools (record blank {
    id = a.id;
    library_id = lib.id;
    parent_id = parent;
    kind = codes "MusicArtist";
    name = a.name;
    path = a.path;
    root_ordinal = pos a.root;
  })

  abbrev pub album_item : AlbumGroup → Text → Text → ScannedItem
  album_item g id parent = keyed tools (record blank {
    id = id;
    library_id = lib.id;
    parent_id = parent;
    kind = codes "MusicAlbum";
    name = g.name;
    path = g.path;
    root_ordinal = pos g.root;
    production_year = year_number g.year;
  })

  -- `trackItem`.
  unfoldable pub track_item : Text → MusicCandidate → Attempt ScannedItem
  track_item parent c = normalised tools lib c.entry.path >>= λ k. done (
      keyed tools (record blank {
        id = identified tools lib (codes "Audio") k;
        library_id = lib.id;
        parent_id = parent;
        kind = codes "Audio";
        name = c.title;
        path = c.entry.path;
        root_ordinal = pos c.root;
        index_number = c.track;
        parent_index_number = c.disc;
        files = file_at 0 c.entry ∷ [];
      }))

  -- `artists[key].id`, of an artist that is there.
  abbrev pub artist_id : Option ArtistGroup → Attempt Text
  artist_id none = crashed
  artist_id (some a) = done a.id

  -- The artist of an album, and none where it has no name.
  unfoldable pub album_artist_id : List ArtistGroup → AlbumGroup → Attempt Text
  album_artist_id artists g =
      if nonempty g.artist_name
      then (normalised tools lib g.artist_name >>= λ k.
          artist_id (find_row (by_artist_key k) artists))
      else done []

  -- The body of the loop that makes the items of an album.
  unfoldable pub album_items : Text → List ArtistGroup → AlbumGroup → Attempt (List ScannedItem)
  unfolding album_artist_id track_item traverse
  album_items parent artists g = album_artist_id artists g >>= λ artist.
      normalised tools lib g.name >>= λ album_key.
      let id = identified tools lib (codes "MusicAlbum") (join_key (artist ∷ album_key ∷ [])) in
      traverse (track_item id) (g.first ∷ g.others) >>= λ tracks.
      done (album_item g id (if nonempty g.artist_name then artist else parent) ∷ tracks)

  -- `resolveMusic`.
  unfoldable pub resolve_music : TagSource → List Reading → Text → Attempt (List ScannedItem)
  unfolding sort_tracks music_candidates artists_of album_items attribution_from_track_artists
  resolve_music tags readings parent =
      sort_tracks (music_candidates tags readings) (record { albums = []; loose = [] }) >>= λ st.
      let albums = map attributed st.albums in
      artists_of albums [] >>= λ artists. traverse (album_items parent artists) albums >>= λ items.
      traverse (track_item parent) st.loose >>= λ tracks.
      done (map (artist_item parent) artists ++ (concat items ++ tracks))
