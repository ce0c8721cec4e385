-- ===== src/Library/Identity/Clean.antt =====
-- What `clean_elements` leaves.
use mathlib.Core.List.{reverse, reverse_aux, reverse-reverse}
use mathlib.Core.Path.{subst}
use atrium_go.Base.{
  ◌≡◌, refl, ap, sym, ◌∙◌, ◌⊎◌, inl, inr, ℕ, true, false, Option, none, some, List, [], ◌∷◌, ◌++◌,
  ◌==◌, arith, Bool-cases, All,
}
use atrium_go.Library.Identity.{
  slash, is_dropped, is_parent, behind, clean_from, clean_elements, identity_message, separator,
}
use atrium_go.Text.{Text, str_eq, split, join}
use atrium_go.Text.Laws.{Without, split-Without, split-join}

-- An element that is a name: neither empty nor a dot nor two, and without a separator.
abbrev pub IsName : Text → Type 0
IsName e = (is_dropped e ≡ false) × (is_parent e ≡ false) × Without slash e

clean_from-IsName :
    (out es : List Text) {kept : List Text}
    → All IsName out
    → All (Without slash) es
    → clean_from out es ≡ some kept
    → All IsName kept
unfolding clean_from
clean_from-IsName out [] h k e = subst (All IsName) (cc) h
clean_from-IsName out (x ∷ es) {kept} h k e = elim (Bool-cases (is_dropped x)) [
  | inl d ↦ clean_from-IsName out es {kept = kept} h k.1 (rw d at e)
  | inr d ↦ elim (Bool-cases (is_parent x)) [
    | inl p ↦
        let (rest, all, l) = popped out h (clean_step es) (rw (d, p) at e) in
        clean_from-IsName rest es {kept = kept} all k.1 l
    | inr p ↦ clean_from-IsName (x ∷ out) es {kept = kept} ((d, p, k.0), h) k.1 (rw (d, p) at e)
  ]
]
  where
    clean_step : List Text → List Text → Option (List Text)
    clean_step es rest = clean_from rest es

    popped :
        (out : List Text)
        → All IsName out
        → (f : List Text → Option (List Text))
        → elim (behind out) [ none ↦ none | some rest ↦ f rest ] ≡ some kept
        → (rest : List Text) × All IsName rest × (f rest ≡ some kept)
    popped [] h f l = cc
    popped (o ∷ out) h f l = (out, h.1, l)

clean_from-names :
    (acc ps : List Text) → All IsName ps → clean_from acc ps ≡ some (reverse_aux ps acc)
unfolding clean_from
clean_from-names acc [] h = refl
clean_from-names acc (p ∷ ps) h = rw (h.0.0, h.0.1) (clean_from-names (p ∷ acc) ps h.1)

All-reverse_aux :
    (ps acc : List Text) → All IsName ps → All IsName acc → All IsName (reverse_aux ps acc)
All-reverse_aux [] acc h k = k
All-reverse_aux (p ∷ ps) acc h k = All-reverse_aux ps (p ∷ acc) h.1 (h.0, k)

All-Without : (ps : List Text) → All IsName ps → All (Without slash) ps
All-Without [] h = tt
All-Without (p ∷ ps) h = (h.0.2, All-Without ps h.1)

==_refl : (n : ℕ) → (n == n) ≡ true
==_refl n = ground arith

prefix_injective :
    (sep : ℕ) (p q u v : Text)
    → Without sep p
    → Without sep q
    → p ++ (sep ∷ u) ≡ q ++ (sep ∷ v)
    → (p ≡ q) × (u ≡ v)
prefix_injective sep [] [] u v h k e = ground arith
prefix_injective sep [] (d ∷ q) u v h k e = absurd (cc (k.0, ==_refl sep, e))
prefix_injective sep (c ∷ p) [] u v h k e = absurd (cc (h.0, ==_refl sep, e))
prefix_injective sep (c ∷ p) (d ∷ q) u v h k e =
    let (same, rest) = prefix_injective sep p q u v h.1 k.1 (cc) in (cc, rest)

clean_elements-names :
    (s : Text) (ps : List Text)
    → split slash s ≡ ps
    → All IsName ps
    → clean_elements s ≡ some (join slash ps)
unfolding clean_elements
clean_elements-names s ps e n =
    ap answered (ap (clean_from []) e ∙ clean_from-names [] ps n)
    ∙ ap (λ l. some (join slash l)) (reverse-reverse ps)
  where
    answered : Option (List Text) → Option Text
    answered o = elim o [ none ↦ none | some out ↦ some (join slash (reverse out)) ]

clean_elements-empty : clean_elements [] ≡ some []
unfolding clean_elements clean_from split join str_eq
clean_elements-empty = refl

clean_elements-joined :
    (ps : List Text) → All IsName ps → clean_elements (join slash ps) ≡ some (join slash ps)
clean_elements-joined [] n = unfold join in clean_elements-empty
clean_elements-joined (p ∷ ps) n =
    clean_elements-names (join slash (p ∷ ps)) (p ∷ ps)
      (split-join slash p ps (All-Without (p ∷ ps) n)) n

split-joined :
    (ps : List Text)
    → All IsName ps
    → (join slash ps ≡ []) ⊎ All IsName (split slash (join slash ps))
split-joined [] n = inl (unfold join in refl)
split-joined (p ∷ ps) n =
    inr (subst (All IsName) (sym (split-join slash p ps (All-Without (p ∷ ps) n))) n)

-- A key that is cleaned is clean: cleaning it again changes nothing, and it is empty or splits into
-- names, none of which is empty, a dot or two dots.
pub clean_elements-clean :
    (s : Text) {t : Text}
    → clean_elements s ≡ some t
    → (clean_elements t ≡ some t) × ((t ≡ []) ⊎ All IsName (split slash t))
unfolding clean_elements
clean_elements-clean s {t} h =
    cleaned (clean_from [] (split slash s))
      (λ out l. clean_from-IsName [] (split slash s) {kept = out} tt (split-Without slash s) l) h
  where
    cleaned :
        (o : Option (List Text))
        → ((out : List Text) → o ≡ some out → All IsName out)
        → elim o [ none ↦ none | some out ↦ some (join slash (reverse out)) ] ≡ some t
        → (clean_elements t ≡ some t) × ((t ≡ []) ⊎ All IsName (split slash t))
    cleaned none n k = cc
    cleaned (some out) n k =
        let names : All IsName (reverse out) = All-reverse_aux out [] (n out refl) tt in
        subst (λ x. (clean_elements x ≡ some x) × ((x ≡ []) ⊎ All IsName (split slash x))) (cc)
          (clean_elements-joined (reverse out) names, split-joined (reverse out) names)

-- Two items whose libraries and kinds hold no separator are hashed from one message only if they
-- have the same library, kind and key.
pub identity_message-injective :
    (library other kind sort k l : Text)
    → Without separator library
    → Without separator other
    → Without separator kind
    → Without separator sort
    → identity_message library kind k ≡ identity_message other sort l
    → (library ≡ other) × (kind ≡ sort) × (k ≡ l)
unfolding identity_message
identity_message-injective library other kind sort k l a b c d e =
    let (same, rest) =
      prefix_injective separator library other (kind ++ (separator ∷ k)) (sort ++ (separator ∷ l)) a
        b e in
    let (kinds, keys) = prefix_injective separator kind sort k l c d rest in (same, kinds, keys)
