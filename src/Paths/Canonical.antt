-- ===== src/Paths/Canonical.antt =====
-- A path is canonicalised to a spelling of itself: only the case of ASCII letters changes.
use mathlib.Core.List.{append-nil}
use mathlib.Core.Path.{subst}
use atrium_go.Base.{
  ℕ, ◌≡◌, refl, ap, sym, ◌∙◌, inl, inr, true, Option, none, some, List, [], ◌∷◌, ◌++◌, arith,
  Bool-cases, ==_iff, Option-cases, length, take, drop, take-append-drop, ◌==◌,
}
use atrium_go.Paths.Compile.{PathPart, literal, parameter, PathPattern, split_segments, trim_slash}
use atrium_go.Paths.Match.{
  Answer, matched, unmatched, panicked, also, cut_fold, put_behind, text_of, match_segment,
  match_segments, match_path, find_pattern,
}
use atrium_go.Text.Laws.{fold_ascii-append, equal_fold_ascii_iff, join-split, split-ne-nil}
use atrium_go.Text.{Text, fold_ascii, fold_byte, equal_fold_ascii, split, join}

pub also-matched :
    {A B : Type 0} (m : Answer A) (f : A → Answer B) {b : B}
    → also m f ≡ matched b
    → (a : A) × (m ≡ matched a) × (f a ≡ matched b)
also-matched (matched a) f h = (a, refl, h)
also-matched unmatched f h = cc
also-matched panicked f h = cc

pub matched-injective : {A : Type 0} {a b : A} → matched a ≡ matched b → a ≡ b
matched-injective h = cc

fold-parameter :
    (c : ℕ) (a b r s : Text)
    → s ≡ a ++ b
    → fold_ascii r ≡ fold_ascii b
    → fold_ascii (c ∷ a ++ r) ≡ fold_ascii (c ∷ s)
fold-parameter c a b r s e h =
    fold_ascii-append (c ∷ a) r
    ∙ ap (λ t. fold_ascii (c ∷ a) ++ t) h
    ∙ sym (fold_ascii-append (c ∷ a) b)
    ∙ ap (λ t. fold_ascii (c ∷ t)) (sym e)

cut_fold-append : (s sub a b : Text) → cut_fold s sub ≡ some (a, b) → s ≡ a ++ b
unfolding cut_fold
cut_fold-append [] sub a b h = ground arith
cut_fold-append (c ∷ s) sub a b h = elim (Option-cases (cut_fold s sub)) [
  | inl e ↦ ground arith
  | inr ((x, y), e) ↦ ground (arith, cut_fold-append s sub x y e)
]

fold-take-drop :
    (t s out : Text)
    → equal_fold_ascii (take (length t) s) t ≡ true
    → fold_ascii out ≡ fold_ascii (drop (length t) s)
    → fold_ascii (t ++ out) ≡ fold_ascii s
fold-take-drop t s out e h =
    fold_ascii-append t out
    ∙ cc ((equal_fold_ascii_iff (take (length t) s) t).0 e, h)
    ∙ sym (fold_ascii-append (take (length t) s) (drop (length t) s))
    ∙ ap fold_ascii (take-append-drop (length t) s)

put_behind-matched :
    (c : ℕ) (o : Option (Text × Text)) (rest : Text → Answer Text) (out : Text)
    → put_behind c o rest ≡ matched out
    → (a b r : Text) × (o ≡ some (a, b)) × (rest b ≡ matched r) × (c ∷ a ++ r ≡ out)
unfolding put_behind
put_behind-matched c none rest out h = cc
put_behind-matched c (some (a, b)) rest out h =
    let (r, k, l) = also-matched (rest b) _ h in (a, b, r, refl, k, matched-injective l)

match_segment-fold :
    (ps : List PathPart) (s out : Text)
    → match_segment ps s ≡ matched out
    → fold_ascii out ≡ fold_ascii s
unfolding match_segment
match_segment-fold [] [] out h = ground arith
match_segment-fold [] (c ∷ s) out h = ground arith
match_segment-fold (literal t ∷ ps) s out h =
    elim (Bool-cases (equal_fold_ascii (take (length t) s) t)) [
      | inr e ↦ absurd (cc (rw e at h))
      | inl e ↦
          let (r, k, l) = also-matched (match_segment ps (drop (length t) s)) _ (rw e at h) in
          subst (λ x. fold_ascii x ≡ fold_ascii s) (matched-injective l)
            (fold-take-drop t s r e (match_segment-fold ps (drop (length t) s) r k))
    ]
match_segment-fold (parameter ∷ []) s out h = ground arith
match_segment-fold (parameter ∷ p ∷ ps) [] out h = cc
match_segment-fold (parameter ∷ p ∷ ps) (c ∷ s) out h =
    let (a, b, r, e, k, l) =
      put_behind-matched c (cut_fold s (text_of p)) (λ b. match_segment (p ∷ ps) b) out h in
    subst (λ x. fold_ascii x ≡ fold_ascii (c ∷ s)) l
      (fold-parameter c a b r s (cut_fold-append s (text_of p) a b e)
        (match_segment-fold (p ∷ ps) b r k))

pub fold_slash : (t : Text) → fold_ascii (b'/' ∷ t) ≡ b'/' ∷ fold_ascii t
unfolding fold_ascii fold_byte
fold_slash t = refl

-- Segments, each behind its slash.
unfoldable pub slashed : List Text → Text
slashed [] = []
slashed (s ∷ ss) = b'/' ∷ s ++ slashed ss

slashed-join : (s : Text) (ss : List Text) → slashed (s ∷ ss) ≡ b'/' ∷ join b'/' (s ∷ ss)
unfolding slashed join
slashed-join s [] = ap (◌∷◌ b'/') (append-nil s)
slashed-join s (t ∷ ss) = ap (λ x. b'/' ∷ s ++ x) (slashed-join t ss)

match_segments-fold :
    (ps : List (List PathPart)) (ss : List Text) (out : Text)
    → length ss ≡ length ps
    → match_segments ps ss ≡ matched out
    → fold_ascii out ≡ fold_ascii (slashed ss)
unfolding match_segments slashed
match_segments-fold [] [] out e h = ground arith
match_segments-fold [] (s ∷ ss) out e h = absurd (omega arith)
match_segments-fold (p ∷ ps) [] out e h = cc
match_segments-fold (p ∷ ps) (s ∷ ss) out e h =
    let (r, k, l) = also-matched (match_segment p s) _ h in
    let (rs, m, n) = also-matched (match_segments ps ss) _ l in
    subst (λ x. fold_ascii x ≡ fold_ascii (b'/' ∷ s ++ slashed ss)) (matched-injective n)
      (fold_ascii-append (b'/' ∷ r) rs
        ∙ cc (
          match_segment-fold p s r k,
          match_segments-fold ps ss rs (omega arith) m,
          fold_slash r,
          fold_slash s,
        )
        ∙ sym (fold_ascii-append (b'/' ∷ s) (slashed ss)))

slashed-split : (s : Text) → slashed (split b'/' s) ≡ b'/' ∷ s
slashed-split s =
    let (p, ps, h) = split-ne-nil b'/' s in
    ap slashed h
    ∙ slashed-join p ps
    ∙ ap (λ x. b'/' ∷ join b'/' x) (sym h)
    ∙ ap (◌∷◌ b'/') (join-split b'/' s)

pub trim_slash-cons :
    (c : ℕ) (s : Text) → (c == b'/') ≡ true → slashed (split_segments (c ∷ s)) ≡ c ∷ s
unfolding split_segments trim_slash slashed
trim_slash-cons c s e = rw e (slashed-split s ∙ ap (λ x. x ∷ s) (ground (arith, ==_iff c b'/')))

match_path-fold :
    (p : PathPattern) (c : ℕ) (s out : Text)
    → (c == b'/') ≡ true
    → match_path p (c ∷ s) ≡ matched out
    → fold_ascii out ≡ fold_ascii (c ∷ s)
unfolding match_path
match_path-fold p c s out e h =
    elim (Bool-cases (length (split_segments (c ∷ s)) == length p.segments)) [
      | inr l ↦ absurd (cc (rw l at h))
      | inl l ↦
          match_segments-fold p.segments (split_segments (c ∷ s)) out (ground arith) (rw l at h)
          ∙ ap fold_ascii (trim_slash-cons c s e)
    ]

pub find_pattern-fold :
    (ps : List PathPattern) (c : ℕ) (s out pattern : Text)
    → (c == b'/') ≡ true
    → find_pattern ps (c ∷ s) ≡ matched (out, pattern)
    → fold_ascii out ≡ fold_ascii (c ∷ s)
unfolding find_pattern
find_pattern-fold [] c s out pattern e h = cc
find_pattern-fold (p ∷ ps) c s out pattern e h =
    ground (arith, match_path-fold p c s out e, find_pattern-fold ps c s out pattern e)
