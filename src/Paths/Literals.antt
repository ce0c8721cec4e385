-- ===== src/Paths/Literals.antt =====
-- A path of the table that has no parameter is found under every casing.
use mathlib.Core.Path.{subst}
use atrium_go.Base.{
  ◌≡◌, refl, ap, sym, ◌∙◌, inl, inr, Bool, true, false, Option, none, some, List, [], ◌∷◌,
  Bool-cases, In, >>=-some, guard-some, guard,
}
use atrium_go.Paths.Compile.{
  PathPattern, PathFolder, compile_path, key, put_compiled, add_path, add_paths, new_path_folder,
  find_text, empty_folder, is_none,
}
use atrium_go.Paths.Match.{matched, lookup}
use atrium_go.Paths.Table.{some-injective, slash_first, compile_path-key}
use atrium_go.Text.Laws.{str_eq_iff, str_eq_refl}
use atrium_go.Text.{Text, fold_ascii, str_eq, has_prefix}

abbrev State : Type 0
State = List (Text × Text) × PathFolder

-- What is found among the literal paths is found among the keys met.
abbrev Known : State → Type 0
Known state = (k v : Text) → find_text k state.1.literals ≡ some v → find_text k state.0 ≡ some v

find_text-other :
    (j k w v : Text) (m : List (Text × Text)) (known : List (Text × Text))
    → find_text j known ≡ none
    → find_text k known ≡ some v
    → find_text k m ≡ some v
    → find_text k ((j, w) ∷ m) ≡ some v
unfolding find_text
find_text-other j k w v m known fresh h g = elim (Bool-cases (str_eq j k)) [
  | inl e ↦ absurd (cc (fresh, h, (str_eq_iff j k).0 e))
  | inr e ↦ rw e g
]

put_compiled-keeps :
    (b : Bool) (p : PathPattern) (path : Text) (state : State)
    → find_text (key p) state.0 ≡ none
    → Known state
    → (k v : Text) → find_text k state.1.literals ≡ some v
    → find_text k (put_compiled b p path state.1).literals ≡ some v
unfolding put_compiled
put_compiled-keeps true p path state fresh known k v h = h
put_compiled-keeps false p path state fresh known k v h =
    find_text-other (key p) k path v state.1.literals state.0 fresh (known k v h) h

put_compiled-Known :
    (b : Bool) (p : PathPattern) (path : Text) (state : State)
    → find_text (key p) state.0 ≡ none
    → Known state
    → Known ((key p, path) ∷ state.0, put_compiled b p path state.1)
unfolding put_compiled find_text
put_compiled-Known true p path state fresh known k v h =
    find_text-other (key p) k path v state.0 state.0 fresh (known k v h) (known k v h)
put_compiled-Known false p path state fresh known k v h = elim (Bool-cases (str_eq (key p) k)) [
  | inl e ↦ rw e (rw e at h)
  | inr e ↦
      find_text-other (key p) k path v state.0 state.0 fresh (known k v (rw e at h))
        (known k v (rw e at h))
]

is_none-eq : (o : Option Text) → is_none o ≡ true → o ≡ none
is_none-eq none h = refl
is_none-eq (some a) h = cc

-- What adding a path does: its key was not met, and what was found stays found.
record Added (path : Text) (state next : State) : Type 0 where
  compiled : PathPattern × Bool
  compiles : compile_path path ≡ some compiled
  slash : has_prefix (b'/' ∷ []) path ≡ true
  known : Known next
  keeps :
      (k v : Text) → find_text k state.1.literals ≡ some v → find_text k next.1.literals ≡ some v
  found : compiled.1 ≡ false → find_text (key compiled.0) next.1.literals ≡ some path

put_compiled-found :
    (b : Bool) (p : PathPattern) (path : Text) (f : PathFolder)
    → b ≡ false
    → find_text (key p) (put_compiled b p path f).literals ≡ some path
unfolding put_compiled find_text
put_compiled-found true p path f h = cc
put_compiled-found false p path f h = rw (str_eq_refl (key p)) refl

add_path-Added :
    (path : Text) (state next : State)
    → Known state
    → add_path path state ≡ some next
    → Added path state next
unfolding add_path
add_path-Added path state next known h =
    let (u, g, l) = >>=-some (guard (has_prefix (b'/' ∷ []) path)) _ h in
    let (compiled, i, l) = >>=-some (compile_path path) _ l in
    let (v, j, l) = >>=-some (guard (is_none (find_text (key compiled.0) state.0))) _ l in
    let fresh = is_none-eq (find_text (key compiled.0) state.0) (guard-some _ v j) in
    subst (Added path state) (some-injective l) (record {
      compiled = compiled;
      compiles = i;
      slash = guard-some _ u g;
      known = put_compiled-Known compiled.1 compiled.0 path state fresh known;
      keeps = put_compiled-keeps compiled.1 compiled.0 path state fresh known;
      found = put_compiled-found compiled.1 compiled.0 path state.1;
    })

Added-found :
    (path : Text) (state next : State) (p : PathPattern)
    → Added path state next
    → compile_path path ≡ some (p, false)
    → find_text (fold_ascii path) next.1.literals ≡ some path
Added-found path state next p added c =
    let literal = ap (λ (t : PathPattern × Bool). t.1) (some-injective (sym added.compiles ∙ c)) in
    let (b, s, e, slash) = slash_first path added.slash in
    subst (λ (t : Text). find_text t next.1.literals ≡ some path)
      (compile_path-key b s added.compiled slash (ap compile_path (sym e) ∙ added.compiles) literal
        ∙ ap fold_ascii (sym e))
      (added.found literal)

add_paths-keeps :
    (paths : List Text) (state built : State) (k v : Text)
    → Known state
    → add_paths paths state ≡ some built
    → find_text k state.1.literals ≡ some v
    → find_text k built.1.literals ≡ some v
unfolding add_paths
add_paths-keeps [] state built k v known h g =
    subst (λ (x : State). find_text k x.1.literals ≡ some v) (some-injective h) g
add_paths-keeps (path ∷ paths) state built k v known h g =
    let (next, i, l) = >>=-some (add_path path state) _ h in
    let added = add_path-Added path state next known i in
    add_paths-keeps paths next built k v added.known l (added.keeps k v g)

add_paths-found :
    (paths : List Text) (state built : State) (path : Text) (p : PathPattern)
    → Known state
    → add_paths paths state ≡ some built
    → In path paths
    → compile_path path ≡ some (p, false)
    → find_text (fold_ascii path) built.1.literals ≡ some path
unfolding add_paths
add_paths-found [] state built path p known h i c = absurd i
add_paths-found (x ∷ paths) state built path p known h (inl e) c =
    let (next, i, l) = >>=-some (add_path x state) _ h in
    let added = add_path-Added x state next known i in
    add_paths-keeps paths next built (fold_ascii path) path added.known l (
      subst (λ (t : Text). find_text (fold_ascii t) next.1.literals ≡ some t) (sym e)
        (Added-found x state next p added (ap compile_path (sym e) ∙ c)))
add_paths-found (x ∷ paths) state built path p known h (inr i) c =
    let (next, j, l) = >>=-some (add_path x state) _ h in
    let added = add_path-Added x state next known j in
    add_paths-found paths next built path p added.known l i c

-- In a table that was accepted, each path that has no parameter is found by every spelling of it
-- that differs in the case of ASCII letters only, and what is answered is the table's spelling.
pub lookup-literal :
    (paths : List Text) (f : PathFolder) (path request : Text) (p : PathPattern)
    → new_path_folder paths ≡ some f
    → In path paths
    → compile_path path ≡ some (p, false)
    → fold_ascii request ≡ fold_ascii path
    → lookup f request ≡ matched (path, path)
unfolding lookup new_path_folder find_text
lookup-literal paths f path request p h i c same =
    let (built, j, l) = >>=-some (add_paths paths ([], empty_folder)) _ h in
    found_alike f request path (
      ap (λ t. find_text t f.literals) same
      ∙ subst (λ (g : PathFolder). find_text (fold_ascii path) g.literals ≡ some path)
          (some-injective l)
          (add_paths-found paths ([], empty_folder) built path p
            (λ k v e. absurd (none_found k v e)) j i c))
  where
    none_found : (k v : Text) → find_text k [] ≡ some v → ⊥
    none_found k v e = cc

    found_alike :
        (f : PathFolder) (request path : Text)
        → find_text (fold_ascii request) f.literals ≡ some path
        → lookup f request ≡ matched (path, path)
    found_alike f request path e = rw (lookup, e) refl
