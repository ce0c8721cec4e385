-- ===== src/Library/Resolve/Groups.antt =====
-- No file is lost and none is doubled while internal/library/music.go groups the tracks.
use atrium_go.Base.{
  ℕ, ◌+◌, List, [], ◌∷◌, ◌++◌, ◌≡◌, refl, total, arith, map, ap, sym, ◌∙◌, total-append, total-map,
  total_zero, inl, inr, Bool-cases,
}
use atrium_go.Library.Data.{Library, Entry, Reading}
use atrium_go.Library.Resolve.Attempts.{done_of, done-injective}
use atrium_go.Library.Resolve.Weights.{item_weight, reading_weight, traverse-total}
use atrium_go.Library.Tools.{Tools, done, normalised, traverse}
use atrium_go.Library.Tracks.{
  TagSource, MusicCandidate, AlbumGroup, ArtistGroup, Sorted, by_album_key, attributed, put_track,
  sort_track, sort_tracks, classify_music, classified_entries, music_candidates, artists_of,
  artist_item, album_artist_id, track_item, album_items, concat, resolve_music,
}
use atrium_go.Ports.Items.{ScannedItem}
use atrium_go.Text.{Text, nonempty}

module _ (weight : Entry → ℕ) where
  abbrev track_weight : MusicCandidate → ℕ
  track_weight c = weight c.entry

  abbrev album_weight : AlbumGroup → ℕ
  album_weight g = track_weight g.first + total track_weight g.others

  abbrev sorted_weight : Sorted → ℕ
  sorted_weight st = total album_weight st.albums + total track_weight st.loose

  put_track-total :
      (k : Text) (c : MusicCandidate) (gs : List AlbumGroup)
      → total album_weight (put_track k c gs) ≡ total album_weight gs + track_weight c
  unfolding put_track
  put_track-total k c [] = omega arith
  put_track-total k c (g ∷ gs) = elim (Bool-cases (by_album_key k g)) [
    | inl hit ↦ rw hit (omega (arith, total-append track_weight g.others (c ∷ [])))
    | inr miss ↦ rw miss (omega (arith, put_track-total k c gs))
  ]

  concat-total :
      (xss : List (List ScannedItem))
      → total (item_weight weight) (concat xss) ≡ total (λ xs. total (item_weight weight) xs) xss
  concat-total [] = refl
  concat-total (xs ∷ xss) =
      omega (arith, total-append (item_weight weight) xs (concat xss), concat-total xss)

  module _ (tools : Tools) (lib : Library) where
    sort_track-weight :
        (c : MusicCandidate) (st : Sorted) {after : Sorted}
        → sort_track tools lib c st ≡ done after
        → sorted_weight after ≡ sorted_weight st + track_weight c
    unfolding sort_track
    sort_track-weight c st {after} h = elim (Bool-cases (nonempty c.album_name)) [
      | inl named ↦
          let (artist, e, h1) = done_of (normalised tools lib c.artist_name) _ (rw named at h) in
          let (album, f, last) = done_of (normalised tools lib c.album_name) _ h1 in
          sym (ap sorted_weight (done-injective last))
          ∙ omega (arith, put_track-total _ c st.albums)
      | inr loose ↦
          sym (ap sorted_weight (done-injective (rw loose at h)))
          ∙ omega (arith, total-append track_weight st.loose (c ∷ []))
    ]

    sort_tracks-weight :
        (cs : List MusicCandidate) (st : Sorted) {after : Sorted}
        → sort_tracks tools lib cs st ≡ done after
        → sorted_weight after ≡ sorted_weight st + total track_weight cs
    unfolding sort_tracks
    sort_tracks-weight [] st h = sym (ap sorted_weight (done-injective h)) ∙ omega arith
    sort_tracks-weight (c ∷ cs) st h =
        let (mid, e, rest) = done_of (sort_track tools lib c st) _ h in
        omega (arith, sort_track-weight c st e, sort_tracks-weight cs mid rest)

    music_candidates-weight :
        (tags : TagSource) (rs : List Reading)
        → total track_weight (music_candidates tools lib tags rs) ≡ total (reading_weight weight) rs
    unfolding music_candidates classify_music
    music_candidates-weight tags [] = refl
    music_candidates-weight tags (r ∷ rs) = omega (
      arith,
      total-append track_weight (classified_entries tools lib tags r.root r.entries)
          (music_candidates tools lib tags rs),
      total-map track_weight (λ e. classify_music tools lib r.root e (tags r.root e.path))
          r.entries,
      music_candidates-weight tags rs,
    )

    track_item-weight :
        (i : Text) (c : MusicCandidate) (x : ScannedItem)
        → track_item tools lib i c ≡ done x
        → item_weight weight x ≡ track_weight c
    unfolding track_item
    track_item-weight i c x h =
        let (k, e, last) = done_of (normalised tools lib c.entry.path) _ h in
        sym (ap (item_weight weight) (done-injective last)) ∙ omega arith

    album_items-weight :
        (parent : Text) (artists : List ArtistGroup) (g : AlbumGroup) (items : List ScannedItem)
        → album_items tools lib parent artists g ≡ done items
        → total (item_weight weight) items ≡ album_weight g
    unfolding album_items
    album_items-weight parent artists g items h =
        let (artist, e, h1) = done_of (album_artist_id tools lib artists g) _ h in
        let (album_key, f, h2) = done_of (normalised tools lib g.name) _ h1 in
        let (tracks, m, last) =
          done_of (traverse (track_item tools lib _) (g.first ∷ g.others)) _ h2 in
        sym (ap (total (item_weight weight)) (done-injective last))
        ∙ omega (
          arith,
          traverse-total track_weight (item_weight weight) _ (g.first ∷ g.others)
              (track_item-weight _) m,
        )

    -- The tracks of a library hold the files that were read, each once.
    pub resolve_music-weight :
        (tags : TagSource) (rs : List Reading) (parent : Text) {items : List ScannedItem}
        → resolve_music tools lib tags rs parent ≡ done items
        → total (item_weight weight) items ≡ total (reading_weight weight) rs
    unfolding resolve_music
    resolve_music-weight tags rs parent h =
        let (st, e, h1) =
          done_of
            (sort_tracks tools lib (music_candidates tools lib tags rs)
              (record { albums = []; loose = [] }))
            _ h in
        let (artists, f, h2) = done_of (artists_of tools lib (map attributed st.albums) []) _ h1 in
        let (albums, m, h3) =
          done_of (traverse (album_items tools lib parent artists) (map attributed st.albums)) _
            h2 in
        let (loose, n, last) = done_of (traverse (track_item tools lib parent) st.loose) _ h3 in
        sym (ap (total (item_weight weight)) (done-injective last))
        ∙ omega (
          arith,
          total-append (item_weight weight) (map (artist_item tools lib parent) artists)
              (concat albums ++ loose),
          total-append (item_weight weight) (concat albums) loose,
          total-map (item_weight weight) (artist_item tools lib parent) artists,
          total_zero (λ a. item_weight weight (artist_item tools lib parent a)) artists (λ a. refl),
          concat-total albums,
          traverse-total album_weight (λ xs. total (item_weight weight) xs)
              (album_items tools lib parent artists) (map attributed st.albums)
              (album_items-weight parent artists) m,
          total-map album_weight attributed st.albums,
          traverse-total track_weight (item_weight weight) (track_item tools lib parent) st.loose
              (track_item-weight parent) n,
          sort_tracks-weight (music_candidates tools lib tags rs)
              (record { albums = []; loose = [] }) e,
          music_candidates-weight tags rs,
        )
