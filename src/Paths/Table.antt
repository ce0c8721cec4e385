-- ===== src/Paths/Table.antt =====
-- What the builder of the table keeps: a literal path stands under its own fold.
use mathlib.Core.List.{append-nil}
use mathlib.Core.Path.{subst}
use atrium_go.Base.{
  ℕ, zero, suc, ◌≡◌, refl, ap, sym, ◌∙◌, inl, inr, Bool, true, false, Option, none, some, List, [],
  ◌∷◌, ◌++◌, arith, Bool-cases, Option-cases, All, >>=-some, guard-some, guard, length, not, ◌&&◌,
  ◌||◌, ◌==◌,
}
use atrium_go.Paths.Canonical.{
  slashed, fold_slash, trim_slash-cons, matched-injective, find_pattern-fold,
}
use atrium_go.Paths.Compile.{
  PathPart, parameter, PathPattern, PathFolder, any_parameter, parametrised, compile_runs,
  compile_opened, compile_segment, compile_segments, compile_path, key_parts, key_segments, key,
  put_compiled, add_path, add_paths, new_path_folder, find_text, run_of, has_byte, split_segments,
  empty_folder, is_none, follows,
}
use atrium_go.Paths.Match.{
  Answer, matched, unmatched, panicked, lookup, canonicalise, routed, trim_last, ends_in_two,
}
use atrium_go.Text.Laws.{fold_ascii-append, str_eq_iff}
use atrium_go.Text.{Text, fold_ascii, cut, str_eq, has_prefix, nonempty}

pub some-injective : {A : Type 0} {a b : A} → some a ≡ some b → a ≡ b
some-injective h = cc

has_parameter :
    (before : Text) (parts : List PathPart)
    → any_parameter (run_of before ++ parameter ∷ parts) ≡ true
has_parameter [] parts = refl
has_parameter (c ∷ s) parts = refl

compile_opened-key :
    (last : Bool) (s : Text) (o : Option (Text × Text)) (turns : Text → Option (List PathPart))
    (parts : List PathPart)
    → compile_opened last s o turns ≡ some parts
    → any_parameter parts ≡ false
    → key_parts parts ≡ fold_ascii s
unfolding compile_opened key_parts
compile_opened-key last s none turns parts h n = elim (Bool-cases (has_byte b'}' s)) [
  | inl e ↦ absurd (cc (rw e at h))
  | inr e ↦ ground (arith, append-nil (fold_ascii s), rw e at h)
]
compile_opened-key last s (some (before, behind)) turns parts h n =
    let (g, i, k) = >>=-some (guard (not (has_byte b'}' before))) _ h in
    let (named, i, k) = >>=-some (cut b'}' behind) _ k in
    let (g, i, k) =
      >>=-some
        (guard (nonempty named.0 && not (has_byte b'{' named.0) && not (follows last before))) _
        k in
    let (rest, i, k) = >>=-some (turns named.1) _ k in
    absurd (apart rest (ap any_parameter (some-injective k) ∙ n))
  where
    apart : (rest : List PathPart) → any_parameter (run_of before ++ parameter ∷ rest) ≡ false → ⊥
    apart rest e = cc (has_parameter before rest)

compile_runs-key :
    (fuel : ℕ) (last : Bool) (s : Text) (parts : List PathPart)
    → compile_runs fuel last s ≡ some parts
    → any_parameter parts ≡ false
    → key_parts parts ≡ fold_ascii s
unfolding compile_runs key_parts
compile_runs-key fuel last [] parts h n = ground arith
compile_runs-key zero last (c ∷ s) parts h n = cc
compile_runs-key (suc fuel) last (c ∷ s) parts h n =
    compile_opened-key last (c ∷ s) (cut b'{' (c ∷ s)) (λ rest. compile_runs fuel true rest) parts h
      n

compile_segments-key :
    (ss : List Text) (segments : List (List PathPart))
    → compile_segments ss ≡ some segments
    → parametrised segments ≡ false
    → key_segments segments ≡ fold_ascii (slashed ss)
unfolding compile_segments key_segments slashed compile_segment
compile_segments-key [] segments h n = ground arith
compile_segments-key (s ∷ ss) segments h n =
    let (g, i, k) = >>=-some (guard (nonempty s)) _ h in
    let (parts, i, k) = >>=-some (compile_segment s) _ k in
    let (rest, j, k) = >>=-some (compile_segments ss) _ k in
    let (p, q) =
      neither (any_parameter parts) (parametrised rest) (ap parametrised (some-injective k) ∙ n) in
    subst (λ x. key_segments x ≡ fold_ascii (b'/' ∷ s ++ slashed ss)) (some-injective k)
      (cc (
        compile_runs-key (length s) false s parts i p,
        compile_segments-key ss rest j q,
        fold_ascii-append (b'/' ∷ s) (slashed ss),
        fold_slash s,
      ))
  where
    neither : (a b : Bool) → (a || b) ≡ false → (a ≡ false) × (b ≡ false)
    neither a b e = ground arith

-- A path without parameters has its own fold as its key.
pub compile_path-key :
    (c : ℕ) (s : Text) (compiled : PathPattern × Bool)
    → (c == b'/') ≡ true
    → compile_path (c ∷ s) ≡ some compiled
    → compiled.1 ≡ false
    → key compiled.0 ≡ fold_ascii (c ∷ s)
unfolding compile_path key
compile_path-key c s compiled e h n =
    let (segments, i, k) = >>=-some (compile_segments (split_segments (c ∷ s))) _ h in
    let same = some-injective k in
    subst (λ x. key_segments x.0.segments ≡ fold_ascii (c ∷ s)) same
      (compile_segments-key (split_segments (c ∷ s)) segments i (ap (λ x. x.1) same ∙ n)
        ∙ ap fold_ascii (trim_slash-cons c s e))

-- Every literal path stands under its fold.
abbrev Spelled : PathFolder → Type 0
Spelled f = All (λ e. fold_ascii e.1 ≡ e.0) f.literals

pub slash_first :
    (path : Text)
    → has_prefix (b'/' ∷ []) path ≡ true
    → (c : ℕ) × (s : Text) × (path ≡ c ∷ s) × ((c == b'/') ≡ true)
unfolding has_prefix
slash_first [] h = cc
slash_first (c ∷ s) h = (c, s, refl, ground arith)

put_compiled-Spelled :
    (b : Bool) (p : PathPattern) (path : Text) (f : PathFolder)
    → (b ≡ false → key p ≡ fold_ascii path)
    → Spelled f
    → Spelled (put_compiled b p path f)
unfolding put_compiled
put_compiled-Spelled true p path f h k = k
put_compiled-Spelled false p path f h k = (sym (h refl), k)

add_path-Spelled :
    (path : Text) (state next : List (Text × Text) × PathFolder)
    → add_path path state ≡ some next
    → Spelled state.1
    → Spelled next.1
unfolding add_path
add_path-Spelled path state next h k =
    let (u, g, l) = >>=-some (guard (has_prefix (b'/' ∷ []) path)) _ h in
    let (compiled, i, l) = >>=-some (compile_path path) _ l in
    let (v, j, l) = >>=-some (guard (is_none (find_text (key compiled.0) state.0))) _ l in
    let (c, s, e, slash) = slash_first path (guard-some _ u g) in
    subst (λ x. Spelled x.1) (some-injective l)
      (put_compiled-Spelled compiled.1 compiled.0 path state.1
        (λ n.
          compile_path-key c s compiled slash (ap compile_path (sym e) ∙ i) n
          ∙ ap fold_ascii (sym e))
        k)

add_paths-Spelled :
    (paths : List Text) (state built : List (Text × Text) × PathFolder)
    → add_paths paths state ≡ some built
    → Spelled state.1
    → Spelled built.1
unfolding add_paths
add_paths-Spelled [] state built h k = subst (λ x. Spelled x.1) (some-injective h) k
add_paths-Spelled (path ∷ paths) state built h k =
    let (next, i, l) = >>=-some (add_path path state) _ h in
    add_paths-Spelled paths next built l (add_path-Spelled path state next i k)

new_path_folder-Spelled :
    (paths : List Text) (f : PathFolder) → new_path_folder paths ≡ some f → Spelled f
unfolding new_path_folder
new_path_folder-Spelled paths f h =
    let (built, i, l) = >>=-some (add_paths paths ([], empty_folder)) _ h in
    subst Spelled (some-injective l) (add_paths-Spelled paths ([], empty_folder) built i tt)

find_text-Spelled :
    (m : List (Text × Text)) (k v : Text)
    → All (λ e. fold_ascii e.1 ≡ e.0) m
    → find_text k m ≡ some v
    → fold_ascii v ≡ k
unfolding find_text
find_text-Spelled [] k v a h = cc
find_text-Spelled ((x, y) ∷ m) k v a h = elim (Bool-cases (str_eq x k)) [
  | inl e ↦ cc (rw e at h, a.0, (str_eq_iff x k).0 e)
  | inr e ↦ find_text-Spelled m k v a.1 (rw e at h)
]

lookup-fold :
    (f : PathFolder) (c : ℕ) (s : Text) (found : Text × Text)
    → Spelled f
    → (c == b'/') ≡ true
    → lookup f (c ∷ s) ≡ matched found
    → fold_ascii found.0 ≡ fold_ascii (c ∷ s)
unfolding lookup
lookup-fold f c s found a slash h =
    elim (Option-cases (find_text (fold_ascii (c ∷ s)) f.literals)) [
      | inl e ↦ find_pattern-fold f.patterns c s found.0 found.1 slash (rw (e, lookup) at h)
      | inr (v, e) ↦
          ap (λ x. fold_ascii x.0) (sym (matched-injective (rw (e, lookup) at h)))
          ∙ find_text-Spelled f.literals (fold_ascii (c ∷ s)) v a e
    ]

trim_last-head : (c : ℕ) (s : Text) → (t : Text) × (trim_last (c ∷ s) ≡ c ∷ t)
unfolding trim_last
trim_last-head c [] = ([], refl)
trim_last-head c (d ∷ []) = elim (Bool-cases (d == b'/')) [
  | inl e ↦ ([], ground arith)
  | inr e ↦ (d ∷ [], ground arith)
]
trim_last-head c (d ∷ e ∷ s) = (trim_last (d ∷ e ∷ s), refl)

routed-fold :
    (path t : Text) (a : Answer (Text × Text))
    → ((found : Text × Text) → a ≡ matched found → fold_ascii found.0 ≡ fold_ascii path)
    → routed path a ≡ matched t
    → fold_ascii t ≡ fold_ascii path
unfolding routed
routed-fold path t (matched found) looked h =
    ap fold_ascii (sym (matched-injective h)) ∙ looked found refl
routed-fold path t unmatched looked h = ap fold_ascii (sym (matched-injective h))
routed-fold path t panicked looked h = cc

canonicalise-routed :
    (f : PathFolder) (path t : Text)
    → has_prefix (b'/' ∷ []) path ≡ true
    → canonicalise f path ≡ matched t
    → routed (trim_last path) (lookup f (trim_last path)) ≡ matched t
unfolding canonicalise
canonicalise-routed f path t slash h = elim (Bool-cases (ends_in_two path)) [
  | inl e ↦ absurd (cc (rw (e, canonicalise) at h))
  | inr e ↦ rw (e, slash, canonicalise) at h
]

-- With a table that was accepted, a path that begins with a slash and is not refused is routed as a
-- spelling of itself: but for the case of its ASCII letters, the text that is routed is the path
-- without its trailing slash.
pub canonicalise-fold :
    (paths : List Text) (f : PathFolder) (path t : Text)
    → new_path_folder paths ≡ some f
    → has_prefix (b'/' ∷ []) path ≡ true
    → canonicalise f path ≡ matched t
    → fold_ascii t ≡ fold_ascii (trim_last path)
canonicalise-fold paths f path t built slash h =
    let (c, s, e, starts) = slash_first path slash in
    let (r, g) = trim_last-head c s in
    let at = ap trim_last e ∙ g in
    routed-fold (trim_last path) t (lookup f (trim_last path))
      (λ found k.
        lookup-fold f c r found (new_path_folder-Spelled paths f built) starts
          (ap (lookup f) (sym at) ∙ k)
        ∙ ap fold_ascii (sym at))
      (canonicalise-routed f path t slash h)
