-- ===== src/Paths/Tests.antt =====
-- A table with a literal path and one whose last segment is half literal.
use atrium_go.Base.{◌≡◌, refl, false, inl, some, [], ◌∷◌}
use atrium_go.Paths.Compile.{
  PathFolder, PathPattern, compile_path, literal, parameter, new_path_folder, find_text,
  split_segments,
}
use atrium_go.Paths.Literals.{lookup-literal}
use atrium_go.Paths.Match.{
  matched, unmatched, panicked, canonicalise, lookup, match_segment, trim_last,
}
use atrium_go.Paths.Table.{canonicalise-fold}
use atrium_go.Text.{codes, fold_ascii, has_prefix, split, cut, str_eq}

abbrev folder : PathFolder
folder = record {
  literals = (codes "/system/info", codes "/System/Info") ∷ [];
  patterns =
      record {
        canonical = codes "/Audio/{itemId}/stream.{container}";
        segments =
            (literal (codes "Audio") ∷ [])
            ∷ (parameter ∷ [])
            ∷ (literal (codes "stream.") ∷ parameter ∷ [])
            ∷ [];
      }
      ∷ [];
}

built :
    new_path_folder (codes "/System/Info" ∷ codes "/Audio/{itemId}/stream.{container}" ∷ [])
    ≡ some folder
unfolding new_path_folder has_prefix split cut str_eq
built = refl

stream :
    canonicalise folder (codes "/audio/AbC/STREAM.Mp4/") ≡ matched (codes "/Audio/AbC/stream.Mp4")
unfolding canonicalise has_prefix find_text str_eq fold_ascii split_segments split
stream = refl

refused : canonicalise folder (codes "/system/info//") ≡ unmatched
unfolding canonicalise
refused = refl

canonicalise-fold_example :
    fold_ascii (codes "/Audio/AbC/stream.Mp4")
    ≡ fold_ascii (trim_last (codes "/audio/AbC/STREAM.Mp4/"))
unfolding has_prefix
canonicalise-fold_example =
    canonicalise-fold (codes "/System/Info" ∷ codes "/Audio/{itemId}/stream.{container}" ∷ [])
      folder (codes "/audio/AbC/STREAM.Mp4/") (codes "/Audio/AbC/stream.Mp4") built refl stream

-- The slice behind a parameter's first byte, at the end of the segment.
no_byte_left :
    match_segment (literal (codes "a") ∷ parameter ∷ literal (codes "b") ∷ []) (codes "a")
    ≡ panicked
unfolding match_segment
no_byte_left = refl

abbrev info : PathPattern
info = record {
  canonical = codes "/System/Info";
  segments = (literal (codes "System") ∷ []) ∷ (literal (codes "Info") ∷ []) ∷ [];
}

info_compiles : compile_path (codes "/System/Info") ≡ some (info, false)
unfolding compile_path split_segments split cut
info_compiles = refl

info_alike : fold_ascii (codes "/SYSTEM/info") ≡ fold_ascii (codes "/System/Info")
unfolding fold_ascii
info_alike = refl

lookup-literal_example :
    lookup folder (codes "/SYSTEM/info") ≡ matched (codes "/System/Info", codes "/System/Info")
lookup-literal_example =
    lookup-literal (codes "/System/Info" ∷ codes "/Audio/{itemId}/stream.{container}" ∷ []) folder
      (codes "/System/Info") (codes "/SYSTEM/info") info built (inl refl) info_compiles info_alike
