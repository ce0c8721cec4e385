-- ===== src/Library/Resolve/Albums.antt =====
-- What stands in a library of music or of films, by internal/library/music.go and movies.go.
use mathlib.Core.Path.{subst}
use atrium_go.Base.{
  ℕ, ◌≤◌, suc, arith, Option, none, some, List, [], ◌∷◌, ◌++◌, ◌≡◌, refl, ap, sym, ◌⊎◌, inl, inr,
  In, In-append_left, In-append_right, In-append_inv, In-map, In-map_inv, map, Bool-cases,
  if◌then◌else◌,
}
use atrium_go.Library.Data.{Library, Reading}
use atrium_go.Library.Films.{FilmCandidate, film_item, resolve_movies, stack_parts, first_path}
use atrium_go.Library.Resolve.Attempts.{done_of, done-injective, traverse-In}
use atrium_go.Library.Resolve.Climbing.{Climbs, Beneath}
use atrium_go.Library.Tools.{Tools, done, normalised, traverse}
use atrium_go.Library.Tracks.{
  TagSource, AlbumGroup, ArtistGroup, MusicCandidate, by_artist_key, artist_item, album_item,
  track_item, artist_id, album_artist_id, album_items, concat, resolve_music, attributed,
  sort_tracks, music_candidates, artists_of,
}
use atrium_go.Ports.Items.{ScannedItem}
use atrium_go.Tables.{find_row}
use atrium_go.Tables.Members.{find_row-In}
use atrium_go.Text.{Text, nonempty}

In-concat :
    (xs : List ScannedItem) (xss : List (List ScannedItem)) (x : ScannedItem)
    → In xs xss
    → In x xs
    → In x (concat xss)
In-concat xs [] x i k = elim i [ ]
In-concat xs (ys ∷ xss) x (inl e) k = In-append_left x ys (concat xss) (rw e at k)
In-concat xs (ys ∷ xss) x (inr i) k = In-append_right x ys (concat xss) (In-concat xs xss x i k)

In-concat_inv :
    (xss : List (List ScannedItem)) (x : ScannedItem)
    → In x (concat xss)
    → (xs : List ScannedItem) × In xs xss × In x xs
In-concat_inv [] x k = elim k [ ]
In-concat_inv (ys ∷ xss) x k = elim (In-append_inv x ys (concat xss) k) [
  | inl i ↦ (ys, inl refl, i)
  | inr i ↦ let (xs, j, m) = In-concat_inv xss x i in (xs, inr j, m)
]

-- The artist of an identifier among those made.
abbrev Artist : Text → List ArtistGroup → Type 0
Artist i artists = (a : ArtistGroup) × In a artists × (a.id ≡ i)

module _ (tools : Tools) (lib : Library) (parent : Text) where
  track_item-parent :
      (i : Text) (c : MusicCandidate) {x : ScannedItem}
      → track_item tools lib i c ≡ done x
      → x.parent_id ≡ i
  unfolding track_item
  track_item-parent i c {x} h =
      let (k, e, last) = done_of (normalised tools lib c.entry.path) _ h in
      sym (ap (λ (y : ScannedItem). y.parent_id) (done-injective last))

  tracks-parent :
      (i : Text) (cs : List MusicCandidate) {xs : List ScannedItem} (x : ScannedItem)
      → traverse (track_item tools lib i) cs ≡ done xs
      → In x xs
      → x.parent_id ≡ i
  tracks-parent i cs x h k =
      let (c, j, e) = traverse-In (track_item tools lib i) cs x h k in track_item-parent i c e

  artist_id-Artist :
      (k : Text) (artists : List ArtistGroup) (found : Option ArtistGroup) {i : Text}
      → find_row (by_artist_key k) artists ≡ found
      → artist_id tools lib found ≡ done i
      → Artist i artists
  artist_id-Artist k artists none f h = cc
  artist_id-Artist k artists (some a) f h =
      (a, (find_row-In (by_artist_key k) artists f).0, done-injective h)

  -- What an album is put beneath.
  album_artist_id-parent :
      (artists : List ArtistGroup) (g : AlbumGroup) {artist : Text}
      → album_artist_id tools lib artists g ≡ done artist
      → let p = if nonempty g.artist_name then artist else parent in (p ≡ parent) ⊎ Artist p artists
  unfolding album_artist_id
  album_artist_id-parent artists g {artist} h = elim (Bool-cases (nonempty g.artist_name)) [
    | inl e ↦
        let (k, f, last) =
          done_of (normalised tools lib g.artist_name)
            (λ k. artist_id tools lib (find_row (by_artist_key k) artists)) (rw e at h) in
        rw e (inr (artist_id-Artist k artists _ refl last))
    | inr e ↦ rw e (inl refl)
  ]

  -- The identifier is the library's or an artist's.
  abbrev Above : List ArtistGroup → Text → Type 0
  Above artists i = (i ≡ parent) ⊎ Artist i artists

  -- What an item of an album is put beneath: the library, an artist, or the album beneath these.
  abbrev Under : List ArtistGroup → List ScannedItem → ScannedItem → Type 0
  Under artists items x =
      Above artists x.parent_id
      ⊎ ((p : ScannedItem) × In p items × (p.id ≡ x.parent_id) × Above artists p.parent_id)

  album_item-Under :
      (artists : List ArtistGroup) (g : AlbumGroup) (i p : Text) (tracks : List ScannedItem)
      (x : ScannedItem)
      → Above artists p
      → traverse (track_item tools lib i) (g.first ∷ g.others) ≡ done tracks
      → In x (album_item tools lib g i p ∷ tracks)
      → Under artists (album_item tools lib g i p ∷ tracks) x
  album_item-Under artists g i p tracks x above h (inl e) = rw e (inl above)
  album_item-Under artists g i p tracks x above h (inr k) = inr (
    album_item tools lib g i p,
    inl refl,
    sym (tracks-parent i (g.first ∷ g.others) x h k),
    above,
  )

  album_items-Under :
      (artists : List ArtistGroup) (g : AlbumGroup) {items : List ScannedItem} (x : ScannedItem)
      → album_items tools lib parent artists g ≡ done items
      → In x items
      → Under artists items x
  unfolding album_items
  album_items-Under artists g {items} x h k =
      let (artist, e, h1) = done_of (album_artist_id tools lib artists g) _ h in
      let (album_key, f, h2) = done_of (normalised tools lib g.name) _ h1 in
      let (tracks, m, last) =
        done_of (traverse (track_item tools lib _) (g.first ∷ g.others)) _ h2 in
      let same = done-injective last in
      subst (λ u. Under artists u x) same
        (album_item-Under artists g _ _ tracks x (album_artist_id-parent artists g e) m
          (rw (← same) at k))

  -- An item put beneath the library or an artist.
  near :
      (artists : List ArtistGroup) (rest : List ScannedItem) (x : ScannedItem)
      → Above artists x.parent_id
      → (n : ℕ) × (n ≤ 1) × Climbs parent (map (artist_item tools lib parent) artists ++ rest) n x
  near artists rest x (inl e) = (0, omega arith, e)
  near artists rest x (inr (a, j, e)) =
      let i = In-append_left _ _ rest (In-map (artist_item tools lib parent) a artists j) in
      (1, omega arith, (artist_item tools lib parent a, i, e, refl))

  widen :
      (artists : List ArtistGroup) (albums : List (List ScannedItem)) (loose : List ScannedItem)
      (items : List ScannedItem) (x : ScannedItem)
      → In items albums
      → Under artists items x
      → Beneath parent (map (artist_item tools lib parent) artists ++ (concat albums ++ loose)) x
  widen artists albums loose items x at (inl above) =
      let (n, le, climbs) = near artists (concat albums ++ loose) x above in
      (n, omega (arith, le), climbs)
  widen artists albums loose items x at (inr (p, j, e, above)) =
      let (n, le, climbs) = near artists (concat albums ++ loose) p above in
      let i =
        In-append_right p (map (artist_item tools lib parent) artists) _
          (In-append_left p (concat albums) loose (In-concat items albums p at j)) in
      (suc n, omega (arith, le), (p, i, e, climbs))

  -- The items of a library of music, by the kind each is of.
  music-Beneath :
      (artists : List ArtistGroup) (groups : List AlbumGroup) (others : List MusicCandidate)
      (albums : List (List ScannedItem)) (loose : List ScannedItem) (x : ScannedItem)
      → traverse (album_items tools lib parent artists) groups ≡ done albums
      → traverse (track_item tools lib parent) others ≡ done loose
      → In x (map (artist_item tools lib parent) artists ++ (concat albums ++ loose))
      → Beneath parent (map (artist_item tools lib parent) artists ++ (concat albums ++ loose)) x
  music-Beneath artists groups others albums loose x m n k =
      elim (In-append_inv x (map (artist_item tools lib parent) artists) _ k) [
        | inl i ↦
            let (a, j, e) = In-map_inv (artist_item tools lib parent) x artists i in
            (0, omega arith, ap (λ (y : ScannedItem). y.parent_id) e)
        | inr i ↦ elim (In-append_inv x (concat albums) loose i) [
          | inl j ↦ in_album j
          | inr j ↦ (0, omega arith, tracks-parent parent others x n j)
        ]
      ]
    where
      in_album :
          In x (concat albums)
          → Beneath parent
              (map (artist_item tools lib parent) artists ++ (concat albums ++ loose))
              x
      in_album j =
          let (items, at, there) = In-concat_inv albums x j in
          let (g, l, e) = traverse-In (album_items tools lib parent artists) groups items m at in
          widen artists albums loose items x at (album_items-Under artists g x e there)

  pub resolve_music-Beneath :
      (tags : TagSource) (readings : List Reading) {items : List ScannedItem} (x : ScannedItem)
      → resolve_music tools lib tags readings parent ≡ done items
      → In x items
      → Beneath parent items x
  unfolding resolve_music
  resolve_music-Beneath tags readings {items} x h k =
      let (st, e, h1) =
        done_of
          (sort_tracks tools lib (music_candidates tools lib tags readings)
            (record { albums = []; loose = [] }))
          _ h in
      let (artists, f, h2) = done_of (artists_of tools lib (map (attributed) st.albums) []) _ h1 in
      let (albums, m, h3) =
        done_of (traverse (album_items tools lib parent artists) (map attributed st.albums)) _ h2 in
      let (loose, n, last) = done_of (traverse (track_item tools lib parent) st.loose) _ h3 in
      let same = done-injective last in
      subst (λ u. Beneath parent u x) same
        (music-Beneath artists (map attributed st.albums) st.loose albums loose x m n
          (rw (← same) at k))

  film_item-parent :
      (candidates : List FilmCandidate) (c : FilmCandidate) {x : ScannedItem}
      → film_item tools lib parent candidates c ≡ done x
      → x.parent_id ≡ parent
  unfolding film_item
  film_item-parent candidates c {x} h =
      let (k, e, last) = done_of (normalised tools lib (first_path tools lib c.files)) _ h in
      sym (ap (λ (y : ScannedItem). y.parent_id) (done-injective last))

  pub resolve_movies-Beneath :
      (readings : List Reading) {items : List ScannedItem} (x : ScannedItem)
      → resolve_movies tools lib readings parent ≡ done items
      → In x items
      → Beneath parent items x
  unfolding resolve_movies
  resolve_movies-Beneath readings x h k =
      let (c, j, e) =
        traverse-In (film_item tools lib parent _) (stack_parts tools lib readings) x h k in
      (0, omega arith, film_item-parent _ c e)
