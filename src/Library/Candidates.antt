-- ===== src/Library/Candidates.antt =====
-- internal/library/library.go and extras.go: which paths are candidates of a collection, and why the
-- others are not.
use atrium_go.Base.{
  Bool, true, false, not, ◌&&◌, ◌||◌, Option, none, some, List, [], ◌∷◌, ltb, length, if◌then◌else◌,
}
use atrium_go.Library.Bytes.{
  is_ascii_digit, trim_right, ends_with, path_base, path_dir, cut_ext, stem_of,
}
use atrium_go.Text.{Text, codes, str_eq, has_prefix, fold_ascii, split}

pub data Collection : Type 0 where
  movies shows music : Collection

-- `ParseCollectionType`.
unfoldable pub parse_collection_type : Text → Option Collection
parse_collection_type s =
    if str_eq (codes "movies") s
    then some movies
    else if str_eq (codes "tvshows") s
    then some shows
    else if str_eq (codes "music") s
    then some music
    else none

abbrev pub admitted_extensions : Collection → List Text
admitted_extensions movies = codes ".mkv" ∷ codes ".mp4" ∷ codes ".avi" ∷ codes ".ts" ∷ []
admitted_extensions shows = codes ".mkv" ∷ codes ".avi" ∷ codes ".mp4" ∷ []
admitted_extensions music = codes ".flac" ∷ codes ".m4a" ∷ codes ".dsf" ∷ []

abbrev pub any_equal : Text → List Text → Bool
any_equal s [] = false
any_equal s (t ∷ ts) = str_eq s t || any_equal s ts

abbrev pub any_suffix : Text → List Text → Bool
any_suffix s [] = false
any_suffix s (t ∷ ts) = ends_with t s || any_suffix s ts

-- `Admits`.
unfoldable pub admits : Collection → Text → Bool
admits c ext =
    not (ltb (length ext) 2)
    && has_prefix (codes ".") ext
    && any_equal (fold_ascii ext) (admitted_extensions c)

pub data Skip : Type 0 where
  skip_hidden skip_extras_folder skip_extras_filename skip_extras_suffix skip_extension : Skip
  skip_ignore_marker skip_zero_bytes skip_not_a_regular_file : Skip

-- `Skip.String`.
unfoldable pub skip_string : Skip → Text
skip_string skip_hidden = codes "a path component begins with a dot"
skip_string skip_extras_folder = codes "the containing directory is an extras folder"
skip_string skip_extras_filename = codes "the file is named for an extra"
skip_string skip_extras_suffix = codes "the file carries an extras suffix"
skip_string skip_extension = codes "the extension is not on this collection type's list"
skip_string skip_ignore_marker =
    codes "an empty .ignore marker excludes this directory or one above it"
skip_string skip_zero_bytes = codes "the file measures zero bytes"
skip_string skip_not_a_regular_file = codes "the entry is not a regular file"

abbrev pub extras_folder_names : List Text
extras_folder_names =
    codes "trailers"
    ∷ codes "backdrops"
    ∷ codes "behind the scenes"
    ∷ codes "deleted scenes"
    ∷ codes "interviews"
    ∷ codes "scenes"
    ∷ codes "samples"
    ∷ codes "shorts"
    ∷ codes "featurettes"
    ∷ codes "extras"
    ∷ codes "extra"
    ∷ codes "other"
    ∷ codes "clips"
    ∷ []

abbrev pub extras_filenames : List Text
extras_filenames = codes "trailer" ∷ codes "sample" ∷ []

abbrev pub extras_suffixes : List Text
extras_suffixes =
    codes "-trailer"
    ∷ codes ".trailer"
    ∷ codes "_trailer"
    ∷ codes "- trailer"
    ∷ codes "-sample"
    ∷ codes ".sample"
    ∷ codes "_sample"
    ∷ codes "- sample"
    ∷ codes "-scene"
    ∷ codes "-clip"
    ∷ codes "-interview"
    ∷ codes "-behindthescenes"
    ∷ codes "-deleted"
    ∷ codes "-deletedscene"
    ∷ codes "-featurette"
    ∷ codes "-short"
    ∷ codes "-extra"
    ∷ codes "-other"
    ∷ []

-- `RecognisesExtras`.
abbrev pub recognises_extras : Collection → Bool
recognises_extras movies = true
recognises_extras shows = true
recognises_extras music = false

-- `IsExtrasFolderName`.
unfoldable pub is_extras_folder_name : Text → Bool
is_extras_folder_name name = any_equal (fold_ascii name) extras_folder_names

-- `IsExtrasFilename`.
unfoldable pub is_extras_filename : Text → Bool
unfolding stem_of
is_extras_filename filename = any_equal (fold_ascii (stem_of filename)) extras_filenames

-- `HasExtrasSuffix`.
unfoldable pub has_extras_suffix : Text → Bool
unfolding stem_of
has_extras_suffix filename =
    any_suffix (fold_ascii (trim_right is_ascii_digit (stem_of filename))) extras_suffixes

-- `IsHiddenName`.
unfoldable pub is_hidden_name : Text → Bool
is_hidden_name name =
    if str_eq name (codes ".") || str_eq name (codes "..")
    then false
    else has_prefix (codes ".") name

abbrev pub any_hidden : List Text → Bool
any_hidden [] = false
any_hidden (e ∷ es) = is_hidden_name e || any_hidden es

-- `Candidate`; none is a candidate.
unfoldable pub candidate : Collection → Text → Option Skip
unfolding is_hidden_name is_extras_folder_name is_extras_filename has_extras_suffix admits path_base
    path_dir cut_ext
candidate c path =
    if any_hidden (split b'/' path)
    then some skip_hidden
    else if recognises_extras c && is_extras_folder_name (path_base (path_dir path))
    then some skip_extras_folder
    else if recognises_extras c && is_extras_filename (path_base path)
    then some skip_extras_filename
    else if recognises_extras c && has_extras_suffix (path_base path)
    then some skip_extras_suffix
    else if not (admits c (cut_ext (path_base path)).1)
    then some skip_extension
    else none
