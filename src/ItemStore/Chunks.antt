-- ===== src/ItemStore/Chunks.antt =====
-- A removal in chunks is one removal.
use mathlib.Core.Path.{subst}
use atrium_go.Base.{
  ℕ, zero, suc, ◌≤◌, ◌≡◌, refl, ap, sym, ◌∙◌, inl, inr, Bool, true, false, ◌||◌, some, List, [],
  ◌∷◌, ◌++◌, arith, Bool-cases, length, take, drop, take-append-drop, length-drop, guard, ◌>>◌,
}
use atrium_go.ItemStore.{
  ItemTables, FileRow, holds, is_among, delete_chunks, chunks, distinct_from, remove_items,
  maximum_identifiers_per_delete,
}
use atrium_go.Tables.{delete_rows}
use atrium_go.Text.Laws.{str_eq_iff}
use atrium_go.Text.{Text}

pub holds-append : (is js : List Text) (k : Text) → holds (is ++ js) k ≡ (holds is k || holds js k)
unfolding holds
holds-append [] js k = refl
holds-append (i ∷ is) js k = ground (arith, holds-append is js k)

abbrev joined : List (List Text) → List Text
joined [] = []
joined (c ∷ cs) = c ++ joined cs

delete_rows-eq :
    {A : Type 0} (p q : A → Bool) (rows : List A)
    → ((r : A) → p r ≡ q r)
    → delete_rows p rows ≡ delete_rows q rows
unfolding delete_rows
delete_rows-eq p q [] e = refl
delete_rows-eq p q (r ∷ rows) e = rw (e r, delete_rows-eq p q rows e) refl

delete_rows-delete_rows :
    {A : Type 0} (p q : A → Bool) (rows : List A)
    → delete_rows p (delete_rows q rows) ≡ delete_rows (λ r. q r || p r) rows
unfolding delete_rows
delete_rows-delete_rows p q [] = refl
delete_rows-delete_rows p q (r ∷ rows) = elim (Bool-cases (q r)) [
  | inl e ↦ rw e (delete_rows-delete_rows p q rows)
  | inr e ↦ rw (e, delete_rows-delete_rows p q rows) refl
]

delete_rows-false : {A : Type 0} (rows : List A) → delete_rows (λ r. false) rows ≡ rows
unfolding delete_rows
delete_rows-false [] = refl
delete_rows-false (r ∷ rows) = ap (◌∷◌ r) (delete_rows-false rows)

delete_chunks-items :
    (cs : List (List Text)) (t : ItemTables)
    → (delete_chunks cs t).0.items ≡ delete_rows (is_among (joined cs)) t.items
unfolding delete_chunks holds
delete_chunks-items [] t = sym (delete_rows-false t.items)
delete_chunks-items (c ∷ cs) t =
    delete_chunks-items cs _
    ∙ delete_rows-delete_rows (is_among (joined cs)) (is_among c) t.items
    ∙ delete_rows-eq _ (is_among (c ++ joined cs)) t.items
        (λ x. sym (holds-append c (joined cs) x.id))

delete_chunks-files :
    (cs : List (List Text)) (t : ItemTables)
    → (delete_chunks cs t).0.files ≡ delete_rows (λ f. holds (joined cs) f.item_id) t.files
unfolding delete_chunks holds
delete_chunks-files [] t = sym (delete_rows-false t.files)
delete_chunks-files (c ∷ cs) t =
    delete_chunks-files cs _
    ∙ delete_rows-delete_rows (λ (f : FileRow). holds (joined cs) f.item_id)
        (λ f. holds c f.item_id) t.files
    ∙ delete_rows-eq _ (λ f. holds (c ++ joined cs) f.item_id) t.files
        (λ f. sym (holds-append c (joined cs) f.item_id))

delete_chunks-scans :
    (cs : List (List Text)) (t : ItemTables) → (delete_chunks cs t).0.scans ≡ t.scans
unfolding delete_chunks
delete_chunks-scans [] t = refl
delete_chunks-scans (c ∷ cs) t = delete_chunks-scans cs _

-- The chunks are the values, in their order.
pub joined-chunks :
    (fuel size : ℕ) (ks : List Text) → length ks ≤ fuel → joined (chunks fuel ks (suc size)) ≡ ks
unfolding chunks
joined-chunks fuel size [] h = refl
joined-chunks zero size (k ∷ ks) h = absurd (omega arith)
joined-chunks (suc fuel) size (k ∷ ks) h =
    ap (λ x. take (suc size) (k ∷ ks) ++ x)
      (joined-chunks fuel size (drop size ks) (omega (arith, length-drop size ks)))
    ∙ take-append-drop (suc size) (k ∷ ks)

holds-distinct_from :
    (seen ks : List Text) (k : Text)
    → (holds seen k || holds (distinct_from seen ks) k) ≡ (holds seen k || holds ks k)
unfolding distinct_from holds
holds-distinct_from seen [] k = refl
holds-distinct_from seen (j ∷ ks) k = elim (Bool-cases (holds seen j)) [
  | inl e ↦ ground (arith, holds-distinct_from seen ks k, str_eq_iff j k)
  | inr e ↦ ground (arith, holds-distinct_from (j ∷ seen) ks k, str_eq_iff j k)
]

guarded : {A : Type 0} (b : Bool) (x : A) {y : A} → (guard b >> some x) ≡ some y → x ≡ y
guarded true x h = cc
guarded false x h = cc

-- What a removal leaves: the rows of the identifiers are gone, and the files beneath them.
pub record Removed (ks : List Text) (t u : ItemTables) : Type 0 where
  pub items : u.items ≡ delete_rows (is_among ks) t.items
  pub files : u.files ≡ delete_rows (λ f. holds ks f.item_id) t.files
  pub scans : u.scans ≡ t.scans

remove-Removed :
    (ks ws : List Text) (cs : List (List Text)) (t : ItemTables)
    → joined cs ≡ ws
    → ((k : Text) → holds ws k ≡ holds ks k)
    → Removed ks t (delete_chunks cs t).0
remove-Removed ks ws cs t e h = record {
  items =
      delete_chunks-items cs t
      ∙ delete_rows-eq (is_among (joined cs)) (is_among ks) t.items
          (λ x. ap (λ w. holds w x.id) e ∙ h x.id);
  files =
      delete_chunks-files cs t
      ∙ delete_rows-eq (λ (f : FileRow). holds (joined cs) f.item_id) (λ f. holds ks f.item_id)
          t.files (λ f. ap (λ w. holds w f.item_id) e ∙ h f.item_id);
  scans = delete_chunks-scans cs t;
}

-- A removal that succeeds deletes exactly the items that it names, however they repeat and whatever
-- the chunks are, and the files beneath them, and changes no scan.
pub remove_items-Removed :
    (ks : List Text) (t : ItemTables) {u : ItemTables} → remove_items ks t ≡ some u → Removed ks t u
unfolding remove_items holds
remove_items-Removed [] t {u} h = subst (Removed [] t) (same h) (record {
  items = sym (delete_rows-false t.items);
  files = sym (delete_rows-false t.files);
  scans = refl;
})
  where
    same : some t ≡ some u → t ≡ u
    same e = cc
remove_items-Removed (k ∷ ks) t h =
    let wanted = distinct_from [] (k ∷ ks) in
    subst (Removed (k ∷ ks) t) (guarded _ _ h) (
      remove-Removed (k ∷ ks) wanted (chunks (length wanted) wanted maximum_identifiers_per_delete)
        t (joined-chunks (length wanted) 499 wanted (omega arith))
        (λ j. holds-distinct_from [] (k ∷ ks) j))
