-- ===== src/Credentials/RoundTrip.antt =====
-- The five components of a header, as a client writes them, are read back.
use mathlib.Core.List.{reverse_aux, append-nil}
use atrium_go.Base.{
  ℕ, ◌≡◌, refl, Bool, true, false, not, some, List, [], ◌∷◌, ◌++◌, arith, All, ◌==◌, ◌||◌, ◌&&◌,
  if◌then◌else◌,
}
use atrium_go.Credentials.{
  ClientIdentification, is_quote, split_components, read_component, read_sides, set_read,
  set_component, read_components, after_scheme_word, read_rest, parse_client_identification,
}
use atrium_go.Text.{
  Text, codes, trim, trim_left, cut, is_blank, cons_head, str_eq, equal_fold_ascii,
}

-- No byte of the text is a quote.
abbrev pub Unquoted : Text → Type 0
Unquoted = All (λ c. is_quote c ≡ false)

-- No byte is a quote or a comma.
abbrev Bare : Text → Type 0
Bare = All (λ c. (is_quote c || c == b',') ≡ false)

not_separated : (b : Bool) (xs ys : List Text) → (if b && not true then [] ∷ xs else ys) ≡ ys
not_separated b xs ys = ground arith

split_components-quoted :
    (v s q : Text) (qs : List Text)
    → Unquoted v
    → split_components false s ≡ q ∷ qs
    → split_components true (v ++ (b'"' ∷ s)) ≡ (v ++ (b'"' ∷ q)) ∷ qs
unfolding split_components
split_components-quoted [] s q qs u h = rw h
split_components-quoted (c ∷ v) s q qs u h =
    rw (u.0, split_components-quoted v s q qs u.1 h)
      (not_separated (c == b',') ((v ++ (b'"' ∷ q)) ∷ qs) (cons_head c ((v ++ (b'"' ∷ q)) ∷ qs)))

split_components-Bare :
    (p s q : Text) (qs : List Text)
    → Bare p
    → split_components false s ≡ q ∷ qs
    → split_components false (p ++ s) ≡ (p ++ q) ∷ qs
unfolding split_components
split_components-Bare [] s q qs b h = h
split_components-Bare (c ∷ p) s q qs b h = ground (arith, split_components-Bare p s q qs b.1 h)

-- `name="value"` in front of what is split.
split_components-component :
    (p v s q : Text) (qs : List Text)
    → Bare p
    → Unquoted v
    → split_components false s ≡ q ∷ qs
    → split_components false (p ++ (b'"' ∷ (v ++ (b'"' ∷ s))))
      ≡ (p ++ (b'"' ∷ (v ++ (b'"' ∷ q)))) ∷ qs
split_components-component p v s q qs b u h =
    split_components-Bare p (b'"' ∷ (v ++ (b'"' ∷ s))) (b'"' ∷ (v ++ (b'"' ∷ q))) qs b
      (unfold split_components in rw (split_components-quoted v s q qs u h))

reverse_aux-append : (xs ys r : Text) → reverse_aux (xs ++ ys) r ≡ reverse_aux ys (reverse_aux xs r)
reverse_aux-append [] ys r = refl
reverse_aux-append (x ∷ xs) ys r = reverse_aux-append xs ys (x ∷ r)

reverse_aux-reverse_aux :
    (xs r t : Text) → reverse_aux (reverse_aux xs r) t ≡ reverse_aux r (xs ++ t)
reverse_aux-reverse_aux [] r t = refl
reverse_aux-reverse_aux (x ∷ xs) r t = reverse_aux-reverse_aux xs (x ∷ r) t

reverse_aux-Unquoted : (xs r : Text) → Unquoted xs → Unquoted r → Unquoted (reverse_aux xs r)
reverse_aux-Unquoted [] r h k = k
reverse_aux-Unquoted (x ∷ xs) r h k = reverse_aux-Unquoted xs (x ∷ r) h.1 (h.0, k)

trim_left-Unquoted : (xs : Text) → Unquoted xs → trim_left is_quote xs ≡ xs
unfolding trim_left
trim_left-Unquoted [] h = refl
trim_left-Unquoted (x ∷ xs) h = rw h.0

-- The quotes at the two ends of a value come off.
trim_quotes : (v : Text) → Unquoted v → trim is_quote (b'"' ∷ (v ++ codes "\"")) ≡ v
unfolding trim trim_left
trim_quotes [] u = refl
trim_quotes (c ∷ v) u = rw (
  u.0,
  reverse_aux-append v (codes "\"") (c ∷ []),
  trim_left-Unquoted (reverse_aux v (c ∷ [])) (reverse_aux-Unquoted v (c ∷ []) u.1 (u.0, tt)),
  reverse_aux-reverse_aux v (c ∷ []) [],
  append-nil v,
)

-- A text between a byte that is no blank and a quote has no blanks to lose.
trim_blanks :
    (c : ℕ) (s : Text)
    → is_blank c ≡ false
    → trim is_blank (c ∷ (s ++ codes "\"")) ≡ c ∷ (s ++ codes "\"")
unfolding trim trim_left
trim_blanks c s h =
    rw (
      h,
      reverse_aux-append s (codes "\"") (c ∷ []),
      reverse_aux-reverse_aux s (c ∷ []) (codes "\""),
    )

-- A value in quotes, in front of what follows it.
abbrev quoted : Text → Text → Text → Text
quoted p v rest = p ++ (b'"' ∷ (v ++ (b'"' ∷ rest)))

-- A component is cut off at the comma behind its closing quote.
split_components-quoted_comma :
    (p v s : Text)
    → Bare p
    → Unquoted v
    → split_components false (quoted p v (b',' ∷ s)) ≡ quoted p v [] ∷ split_components false s
unfolding split_components
split_components-quoted_comma p v s b u =
    split_components-component p v (b',' ∷ s) [] (split_components false s) b u refl

split_components-quoted_end :
    (p v : Text) → Bare p → Unquoted v → split_components false (quoted p v []) ≡ quoted p v [] ∷ []
unfolding split_components
split_components-quoted_end p v b u = split_components-component p v [] [] [] b u refl

read_client :
    (v : Text)
    → Unquoted v
    → read_component (quoted (codes "Client=") v []) ≡ some (codes "Client", v)
unfolding read_component read_sides cut trim trim_left
read_client v u = rw (trim_blanks b'C' (codes "lient=" ++ (b'"' ∷ v)) refl, trim_quotes v u)

read_device :
    (v : Text)
    → Unquoted v
    → read_component (quoted (codes " Device=") v []) ≡ some (codes "Device", v)
unfolding read_component read_sides cut trim trim_left
read_device v u = rw (trim_blanks b'D' (codes "evice=" ++ (b'"' ∷ v)) refl, trim_quotes v u)

read_device_id :
    (v : Text)
    → Unquoted v
    → read_component (quoted (codes " DeviceId=") v []) ≡ some (codes "DeviceId", v)
unfolding read_component read_sides cut trim trim_left
read_device_id v u = rw (trim_blanks b'D' (codes "eviceId=" ++ (b'"' ∷ v)) refl, trim_quotes v u)

read_version :
    (v : Text)
    → Unquoted v
    → read_component (quoted (codes " Version=") v []) ≡ some (codes "Version", v)
unfolding read_component read_sides cut trim trim_left
read_version v u = rw (trim_blanks b'V' (codes "ersion=" ++ (b'"' ∷ v)) refl, trim_quotes v u)

read_token :
    (v : Text)
    → Unquoted v
    → read_component (quoted (codes " Token=") v []) ≡ some (codes "Token", v)
unfolding read_component read_sides cut trim trim_left
read_token v u = rw (trim_blanks b'T' (codes "oken=" ++ (b'"' ∷ v)) refl, trim_quotes v u)

-- What a client writes: its five components, with a comma and a blank between them.
unfoldable pub header : ClientIdentification → Text
header r =
    codes "MediaBrowser "
    ++ quoted (codes "Client=") r.client (
        b','
        ∷ quoted (codes " Device=") r.device (
            b','
            ∷ quoted (codes " DeviceId=") r.device_id (
                b','
                ∷ quoted (codes " Version=") r.version
                    (b',' ∷ quoted (codes " Token=") r.token []))))

-- No value holds a quote.
pub record Quotable (r : ClientIdentification) : Type 0 where
  pub client_unquoted : Unquoted r.client
  pub device_unquoted : Unquoted r.device
  pub device_id_unquoted : Unquoted r.device_id
  pub version_unquoted : Unquoted r.version
  pub token_unquoted : Unquoted r.token

-- A header with the five components in quotes is read back whole where no value holds a quote;
-- commas, blanks and equals signs inside a value are part of it.
pub parse_client_identification-header :
    (r : ClientIdentification) → Quotable r → parse_client_identification (header r) ≡ r
unfolding parse_client_identification header after_scheme_word read_rest cut equal_fold_ascii
    read_components set_read set_component str_eq
parse_client_identification-header r q = rw (
  split_components-quoted_comma (codes "Client=") r.client _
      (refl, (refl, (refl, (refl, (refl, (refl, (refl, tt))))))) q.client_unquoted,
  split_components-quoted_comma (codes " Device=") r.device _
      (refl, (refl, (refl, (refl, (refl, (refl, (refl, (refl, tt)))))))) q.device_unquoted,
  split_components-quoted_comma (codes " DeviceId=") r.device_id _
      (refl, (refl, (refl, (refl, (refl, (refl, (refl, (refl, (refl, (refl, tt))))))))))
      q.device_id_unquoted,
  split_components-quoted_comma (codes " Version=") r.version _
      (refl, (refl, (refl, (refl, (refl, (refl, (refl, (refl, (refl, tt))))))))) q.version_unquoted,
  split_components-quoted_end (codes " Token=") r.token
      (refl, (refl, (refl, (refl, (refl, (refl, (refl, tt))))))) q.token_unquoted,
  read_client r.client q.client_unquoted,
  read_device r.device q.device_unquoted,
  read_device_id r.device_id q.device_id_unquoted,
  read_version r.version q.version_unquoted,
  read_token r.token q.token_unquoted,
)
