-- ===== src/Credentials.antt =====
-- internal/httpapi/authreader.go: what a request says of its client and of its access token, read
-- off four texts. `url.QueryUnescape` is a parameter.
pub mod RoundTrip
pub mod Precedence
mod Tests
use mathlib.Core.List.{reverse}
use atrium_go.Base.{
  ℕ, Bool, true, false, not, ◌&&◌, ◌||◌, Option, none, some, List, [], ◌∷◌, ◌==◌, if◌then◌else◌,
}
use atrium_go.Text.{
  Text, codes, nonempty, str_eq, equal_fold_ascii, cut, split, trim, is_blank, cons_head,
}

pub record ClientIdentification : Type 0 where
  pub client : Text
  pub device : Text
  pub device_id : Text
  pub version : Text
  pub token : Text

abbrev pub no_identification : ClientIdentification
no_identification = record { client = []; device = []; device_id = []; version = []; token = [] }

-- `afterSchemeWord`.
unfoldable pub after_scheme_word : Text → Option Text
after_scheme_word field = elim (cut b' ' field) [
  | none ↦ none
  | some (word, rest) ↦
      if equal_fold_ascii word (codes "MediaBrowser") || equal_fold_ascii word (codes "Emby")
      then some rest
      else none
]

abbrev pub is_quote : ℕ → Bool
is_quote c = c == b'"'

-- The loop of `splitComponents`, from whether a quote is open.
unfoldable pub split_components : Bool → Text → List Text
split_components quoted [] = [] ∷ []
split_components quoted (c ∷ s) =
    if is_quote c
    then cons_head c (split_components (not quoted) s)
    else let rest = split_components quoted s in
      if c == b',' && not quoted then [] ∷ rest else cons_head c rest

-- `beginsWithWhitespace` and `endsInWhitespace`.
abbrev pub begins_with_whitespace : Text → Bool
begins_with_whitespace [] = false
begins_with_whitespace (c ∷ s) = is_blank c

abbrev pub ends_in_whitespace : Text → Bool
ends_in_whitespace [] = false
ends_in_whitespace (c ∷ []) = is_blank c
ends_in_whitespace (c ∷ d ∷ s) = ends_in_whitespace (d ∷ s)

-- The name and the value on the two sides of the `=`.
unfoldable pub read_sides : Option (Text × Text) → Option (Text × Text)
read_sides none = none
read_sides (some (name, value)) =
    if ends_in_whitespace name || begins_with_whitespace value
    then none
    else some (name, trim is_quote value)

-- `readComponent`.
unfoldable pub read_component : Text → Option (Text × Text)
unfolding read_sides
read_component component = read_sides (cut b'=' (trim is_blank component))

-- The switch of `ParseClientIdentification`: the names are compared byte by byte.
unfoldable pub set_component : Text → Text → ClientIdentification → ClientIdentification
set_component name value read =
    if str_eq name (codes "Client")
    then record read { client = value }
    else if str_eq name (codes "Device")
    then record read { device = value }
    else if str_eq name (codes "DeviceId")
    then record read { device_id = value }
    else if str_eq name (codes "Version")
    then record read { version = value }
    else if str_eq name (codes "Token")
    then record read { token = value }
    else read

unfoldable pub set_read : Option (Text × Text) → ClientIdentification → ClientIdentification
unfolding set_component
set_read none read = read
set_read (some (name, value)) read = set_component name value read

unfoldable pub read_components : List Text → ClientIdentification → ClientIdentification
unfolding read_component set_read
read_components [] read = read
read_components (c ∷ cs) read = read_components cs (set_read (read_component c) read)

unfoldable pub read_rest : Option Text → ClientIdentification
unfolding split_components read_components
read_rest none = no_identification
read_rest (some rest) = read_components (split_components false rest) no_identification

-- `ParseClientIdentification`.
unfoldable pub parse_client_identification : Text → ClientIdentification
unfolding after_scheme_word read_rest
parse_client_identification field = read_rest (after_scheme_word field)

-- Whether a header yielded anything, `read != (ClientIdentification{})`.
abbrev pub is_identified : ClientIdentification → Bool
is_identified r =
    nonempty r.client
    || nonempty r.device
    || nonempty r.device_id
    || nonempty r.version
    || nonempty r.token

-- `presentedClientIdentification`, of the values of the two headers.
unfoldable pub presented_client_identification : Text → Text → ClientIdentification
unfolding parse_client_identification
presented_client_identification authorization emby_authorization =
    let read = parse_client_identification authorization in
    let other = parse_client_identification emby_authorization in
    if is_identified read then read else other

-- The first text that is not empty.
abbrev pub first_nonempty : Text → Text → Text
first_nonempty a b = if nonempty a then a else b

module _ (query_unescape : Text → Option Text) where
  -- The value of a fragment that names the credential, unescaped where it can be.
  unfoldable pub fragment_value : Option (Text × Text) → Text
  fragment_value none = []
  fragment_value (some (name, value)) =
      if equal_fold_ascii name (codes "ApiKey") || equal_fold_ascii name (codes "api_key")
      then elim (query_unescape value) [ none ↦ value | some decoded ↦ decoded ]
      else []

  -- The loop of `queryToken`.
  unfoldable pub fragments_token : List Text → Text
  unfolding fragment_value
  fragments_token [] = []
  fragments_token (f ∷ fs) =
      let value = fragment_value (cut b'=' f) in
      let rest = fragments_token fs in if nonempty value then value else rest

  unfoldable pub query_token : Text → Text
  unfolding fragments_token
  query_token raw = fragments_token (split b'&' raw)

  -- `presentedToken`.
  unfoldable pub presented_token : Text → Text → Text → Text → Text
  unfolding parse_client_identification query_token
  presented_token authorization emby_authorization emby_token raw =
      first_nonempty (parse_client_identification authorization).token (
        first_nonempty (parse_client_identification emby_authorization).token
          (first_nonempty (trim is_blank emby_token) (query_token raw)))
