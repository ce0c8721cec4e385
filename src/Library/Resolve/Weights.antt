-- ===== src/Library/Resolve/Weights.antt =====
-- Sums over the files of a library: what each weighs, over the entries that were read and over the
-- items that they resolve to.
use atrium_go.Base.{ℕ, List, [], ◌∷◌, ◌≡◌, total, arith, ap, sym}
use atrium_go.Library.Data.{Entry, Reading}
use atrium_go.Library.Resolve.Attempts.{traverse_of, done-injective}
use atrium_go.Library.Tools.{Attempt, done, traverse}
use atrium_go.Ports.Items.{ScannedItem, ScannedFile}

-- What was read of a file that an item holds.
abbrev pub entry_of : ScannedFile → Entry
entry_of f = record { path = f.path; size = f.size; modified_at = f.modified_at }

module _ (weight : Entry → ℕ) where
  abbrev pub file_weight : ScannedFile → ℕ
  file_weight f = weight (entry_of f)

  abbrev pub item_weight : ScannedItem → ℕ
  item_weight x = total file_weight x.files

  abbrev pub reading_weight : Reading → ℕ
  reading_weight r = total weight r.entries

module _ {A B : Type 0} where
  -- A traversal keeps a sum where each of its steps keeps the weight.
  pub traverse-total :
      (before : A → ℕ) (after : B → ℕ) (f : A → Attempt B) (xs : List A) {ys : List B}
      → ((x : A) (y : B) → f x ≡ done y → after y ≡ before x)
      → traverse f xs ≡ done ys
      → total after ys ≡ total before xs
  unfolding traverse
  traverse-total before after f [] step h = sym (ap (total after) (done-injective h))
  traverse-total before after f (x ∷ xs) {ys} step h =
      let (b, bs, e, rest, shape) = traverse_of f x xs h in
      rw shape (omega (arith, step x b e, traverse-total before after f xs step rest))
