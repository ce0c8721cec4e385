-- ===== src/Library/SortKey/Order.antt =====
-- The keys of numbered items follow their numbers.
use mathlib.Core.List.{append_assoc}
use atrium_go.Base.{
  ◌≡◌, refl, ap, sym, ◌∙◌, ◌⊎◌, inl, inr, ℕ, suc, ◌^◌, ◌<◌, true, some, [], ◌∷◌, ◌++◌, arith,
  length, lt→ltb,
}
use atrium_go.Base.Int.{pos}
use atrium_go.Library.SortKey.Padding.{length-pad_number, str_lt-pad_number}
use atrium_go.Library.SortKey.{Unicode, sort_key_for, number_segment, pad_number}
use atrium_go.Ports.Items.{ScannedItem}
use atrium_go.Text.{Text, codes, str_lt, str_eq}

str_lt-append :
    (p q u v : Text) → length p ≡ length q → str_lt p q ≡ true → str_lt (p ++ u) (q ++ v) ≡ true
unfolding str_lt
str_lt-append [] [] u v e h = cc
str_lt-append [] (d ∷ q) u v e h = absurd (omega (arith, e))
str_lt-append (c ∷ p) [] u v e h = cc
str_lt-append (c ∷ p) (d ∷ q) u v e h = ground (arith, str_lt-append p q u v (omega (arith, e)))

str_lt-common : (p u v : Text) → str_lt (p ++ u) (p ++ v) ≡ str_lt u v
unfolding str_lt
str_lt-common [] u v = refl
str_lt-common (c ∷ p) u v = ground (arith, str_lt-common p u v)

number_segment-less :
    (m n w : ℕ) (u v : Text)
    → m < n
    → n < 10 ^ suc w
    → str_lt
        (number_segment (some (pos m)) (suc w) ++ u)
        (number_segment (some (pos n)) (suc w) ++ v)
      ≡ true
unfolding number_segment
number_segment-less m n w u v h k =
    let below : m < 10 ^ suc w = omega (arith, h, k) in
    rw
      (
        append_assoc (pad_number (pos m) (suc w)) (codes " - ") u,
        append_assoc (pad_number (pos n) (suc w)) (codes " - ") v,
      )
      (str_lt-append (pad_number (pos m) (suc w)) (pad_number (pos n) (suc w)) _ _
        (length-pad_number m w below ∙ sym (length-pad_number n w k))
        (str_lt-pad_number m n w below k ∙ lt→ltb m n h))

abbrev episode_key : ℕ → ℕ → Text → Text
episode_key season episode name =
    number_segment (some (pos season)) 3 ++ (number_segment (some (pos episode)) 4 ++ name)

episode_key-less :
    (s t e f : ℕ) (a b : Text)
    → t < 10 ^ 3
    → f < 10 ^ 4
    → (s < t) ⊎ ((s ≡ t) × (e < f))
    → str_lt (episode_key s e a) (episode_key t f b) ≡ true
episode_key-less s t e f a b h k (inl l) =
    number_segment-less s t 2 (number_segment (some (pos e)) 4 ++ a)
      (number_segment (some (pos f)) 4 ++ b) l h
episode_key-less s t e f a b h k (inr (same, l)) =
    ap (λ n. str_lt (episode_key n e a) (episode_key t f b)) same
    ∙ str_lt-common (number_segment (some (pos t)) 3) (number_segment (some (pos e)) 4 ++ a)
        (number_segment (some (pos f)) 4 ++ b)
    ∙ number_segment-less e f 3 a b l k

module _ (unicode : Unicode) where
  sort_key_for-episode :
      (x : ScannedItem) (s e : ℕ)
      → x.kind ≡ codes "Episode"
      → x.sort_title ≡ []
      → x.parent_index_number ≡ some (pos s)
      → x.index_number ≡ some (pos e)
      → sort_key_for unicode x ≡ episode_key s e x.name
  unfolding sort_key_for str_eq
  sort_key_for-episode x s e k t p i =
      rw (t, k, p, i)
        (append_assoc (number_segment (some (pos s)) 3) (number_segment (some (pos e)) 4) x.name)

  -- Of two episodes that are numbered, within three digits for the season and four for the episode,
  -- and that carry no sort title, the one of the earlier season, or of the same season and with the
  -- smaller number, has the smaller key, whatever their names are.
  pub sort_key_for-episodes :
      (x y : ScannedItem) (s t e f : ℕ)
      → x.kind ≡ codes "Episode"
      → y.kind ≡ codes "Episode"
      → x.sort_title ≡ []
      → y.sort_title ≡ []
      → x.parent_index_number ≡ some (pos s)
      → y.parent_index_number ≡ some (pos t)
      → x.index_number ≡ some (pos e)
      → y.index_number ≡ some (pos f)
      → t < 10 ^ 3
      → f < 10 ^ 4
      → (s < t) ⊎ ((s ≡ t) × (e < f))
      → str_lt (sort_key_for unicode x) (sort_key_for unicode y) ≡ true
  sort_key_for-episodes x y s t e f xk yk xt yt xp yp xi yi h k less =
      rw (sort_key_for-episode x s e xk xt xp xi, sort_key_for-episode y t f yk yt yp yi)
        (episode_key-less s t e f x.name y.name h k less)
