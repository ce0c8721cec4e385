-- ===== src/Scan/Scanner/Rows.antt =====
-- What the batches, the removals and the release of a scan leave of the rows.
use mathlib.Core.Path.{fun_ext}
use atrium_go.Base.{
  some-injective, ◌≡◌, refl, ap, sym, ◌∙◌, ℕ, zero, suc, Bool, true, Option, none, some, List, [],
  ◌∷◌, ◌++◌, map, arith, if◌then◌else◌, length, take, drop, >>=-some, guard, not, take-append-drop,
  ◌==◌,
}
use atrium_go.Base.Int.{ℤ}
use atrium_go.ItemStore.{
  ItemTables, ScanBatch, ScanState, claim_scan, claim_with, scans_of, apply_scan_batch,
  remove_items, release_scan, by_item_id, columns, write_items, write_item, renew_claim,
  is_repeated, holds, is_among,
}
use atrium_go.ItemStore.Chunks.{remove_items-Removed}
use atrium_go.ItemStore.Rows.{write_item-items}
use atrium_go.ItemStore.Files.{map-append}
use atrium_go.Ports.Items.{ScannedItem, Time}
use atrium_go.Scan.Scanner.Effects.{after-done, write-done, now-done}
use atrium_go.Scan.Scanner.Monad.{World, Result, done, now, write}
use atrium_go.Scan.Scanner.{
  Library, Options, Scanner, Surroundings, Changes, encoded, commit_scan, remove_gone,
  write_batches, batch_with,
}
use atrium_go.Scan.{Reconciliation, by_id_from, set_id}
use atrium_go.Tables.{find_row, delete_rows, count_rows}
use atrium_go.Text.{Text, str_eq}
use atrium_go.Text.Laws.{str_eq_iff}

-- The rows by their identifiers.
abbrev pub row_of : ItemTables → Text → Option ScannedItem
row_of t k = find_row (by_item_id k) t.items

by_id_from-append :
    (m : Text → Option ScannedItem) (xs ys : List ScannedItem)
    → by_id_from m (xs ++ ys) ≡ by_id_from (by_id_from m xs) ys
unfolding by_id_from
by_id_from-append m [] ys = refl
by_id_from-append m (x ∷ xs) ys = by_id_from-append (set_id m x) xs ys

write_items-row_of :
    (xs : List ScannedItem) (t : ItemTables) {u : ItemTables}
    → write_items xs t ≡ some u
    → row_of u ≡ by_id_from (row_of t) (map columns xs)
unfolding write_items by_id_from
write_items-row_of [] t h = ap row_of (sym (some-injective h))
write_items-row_of (x ∷ xs) t {u} h =
    let (w, i, l) = >>=-some (write_item x t) _ h in
    write_items-row_of xs w {u = u} l
    ∙ ap (λ m. by_id_from m (map columns xs)) (fun_ext (λ k. write_item-items x k t i))

apply_scan_batch-row_of :
    (b : ScanBatch) (t : ItemTables) {u : ItemTables}
    → apply_scan_batch b t ≡ some u
    → row_of u ≡ by_id_from (row_of t) (map columns b.items)
unfolding apply_scan_batch
apply_scan_batch-row_of b t {u} h =
    let (x, g, l) = >>=-some (guard (not (is_repeated b.items))) _ h in
    let (scans, i, m) = >>=-some (renew_claim b t.scans) _ l in
    write_items-row_of b.items (record t { scans = scans }) {u = u} m

-- Deleting some identifiers, by what a lookup answers.
find_row-removed :
    (ks : List Text) (k : Text) (rows : List ScannedItem)
    → find_row (by_item_id k) (delete_rows (is_among ks) rows)
      ≡ (if holds ks k then none else find_row (by_item_id k) rows)
unfolding find_row delete_rows
find_row-removed ks k [] = ground arith
find_row-removed ks k (r ∷ rows) = ground (
  arith,
  λ (e : str_eq r.id k ≡ true). ap (holds ks) ((str_eq_iff r.id k).0 e),
  find_row-removed ks k rows,
)

remove_items-row_of :
    (ks : List Text) (k : Text) (t : ItemTables) {u : ItemTables}
    → remove_items ks t ≡ some u
    → row_of u k ≡ (if holds ks k then none else row_of t k)
remove_items-row_of ks k t {u} h =
    ap (find_row (by_item_id k)) (remove_items-Removed ks t {u = u} h).items
    ∙ find_row-removed ks k t.items

pub claim_scan-items :
    (library by : Text) (at : Time) (stale_after : ℤ) (t : ItemTables)
    → (claim_scan library by at stale_after t).1.items ≡ t.items
unfolding claim_scan claim_with
claim_scan-items library by at stale_after t = claimed (find_row (scans_of library) t.scans)
  where
    claimed : (o : Option ScanState) → (claim_with o library by at stale_after t).1.items ≡ t.items
    claimed none = refl
    claimed (some s) = ground arith

release_scan-items :
    (library : Text) (at : Time) (summary : Text) (full : Bool) (t : ItemTables) {u : ItemTables}
    → release_scan library at summary full t ≡ some u
    → u.items ≡ t.items
unfolding release_scan
release_scan-items library at summary full t {u} h =
    let (x, g, l) = >>=-some (guard (count_rows (scans_of library) t.scans == 1)) _ h in
    ap (λ (v : ItemTables). v.items) (sym (some-injective l))

module _ (env : Surroundings) where
  write_batches-row_of :
      (fuel : ℕ) (s : Scanner) (lib : Library) (xs : List ScannedItem) (w : World) {u : Unit {0}}
      {v : World}
      → write_batches env fuel s lib xs w ≡ (done u, v)
      → row_of v.tables ≡ by_id_from (row_of w.tables) (map columns xs)
  unfolding write_batches by_id_from
  write_batches-row_of fuel s lib [] w h =
      ap (λ (x : Result (Unit {0}) × World). row_of x.1.tables) (sym h)
  write_batches-row_of zero s lib (x ∷ xs) w h = cc
  write_batches-row_of (suc fuel) s lib (x ∷ xs) w {u} {v} h =
      let (at, w1, a, h1) = after-done (now env.store w) _ h in
      let b = batch_with env s lib (take s.batch_size (x ∷ xs)) at in
      let (_, w2, c, h2) = after-done (write env.store (apply_scan_batch b) w1) _ h1 in
      write_batches-row_of fuel s lib (drop s.batch_size (x ∷ xs)) w2 {u = u} {v = v} h2
      ∙ ap (λ m. by_id_from m (map columns (drop s.batch_size (x ∷ xs))))
          (apply_scan_batch-row_of b w1.tables (write-done env.store _ w1 c)
            ∙ ap (λ t. by_id_from (row_of t) (map columns (take s.batch_size (x ∷ xs))))
                (now-done env.store w a))
      ∙ sym (
          by_id_from-append (row_of w.tables) (map columns (take s.batch_size (x ∷ xs)))
            (map columns (drop s.batch_size (x ∷ xs))))
      ∙ ap (by_id_from (row_of w.tables)) (
          sym (map-append columns (take s.batch_size (x ∷ xs)) (drop s.batch_size (x ∷ xs)))
          ∙ ap (map columns) (take-append-drop s.batch_size (x ∷ xs)))

  remove_gone-row_of :
      (ks : List Text) (k : Text) (w : World) {u : Unit {0}} {v : World}
      → remove_gone env ks w ≡ (done u, v)
      → row_of v.tables k ≡ (if holds ks k then none else row_of w.tables k)
  unfolding holds
  remove_gone-row_of [] k w h = ap (λ (x : Result (Unit {0}) × World). row_of x.1.tables k) (sym h)
  remove_gone-row_of (i ∷ is) k w h =
      remove_items-row_of (i ∷ is) k w.tables (write-done env.store _ w h)

  pub commit_scan-rows :
      (s : Scanner) (lib : Library) (options : Options) (r : Reconciliation) (changes : Changes)
      (k : Text) (w : World) {c : Changes} {v : World}
      → commit_scan env s lib options r changes w ≡ (done c, v)
      → (c ≡ changes)
        × (row_of v.tables k ≡ (
            if holds r.remove k
            then none
            else by_id_from (row_of w.tables) (map columns r.write) k))
  unfolding commit_scan
  commit_scan-rows s lib options r changes k w {c} {v} h =
      let (_, w1, a1, h1) = after-done (write_batches env (length r.write) s lib r.write w) _ h in
      let (_, w2, a2, h2) = after-done (remove_gone env r.remove w1) _ h1 in
      let (d, w3, a3, h3) = after-done (encoded env (env.encode changes) w2) _ h2 in
      let (at, w4, a4, h4) = after-done (now env.store w3) _ h3 in
      let (_, w5, a5, h5) =
        after-done (write env.store (release_scan lib.id at d options.full) w4) _ h4 in
      (
        (answered _ refl h5).0,
        ap (λ (x : World). row_of x.tables k) ((answered _ refl h5).1)
            ∙ ap (find_row (by_item_id k)) (
                release_scan-items lib.id at d options.full w4.tables (write-done env.store _ w4 a5)
                ∙ ap (λ (t : ItemTables). t.items) (now-done env.store w3 a4)
                ∙ ap (λ (x : World). x.tables.items) (encoded-done (env.encode changes) w2 a3))
            ∙ remove_gone-row_of r.remove k w1 a2
            ∙ ap (λ (m : Text → Option ScannedItem). if holds r.remove k then none else m k)
                (write_batches-row_of (length r.write) s lib r.write w a1),
      )
    where
      Answer : Type 0
      Answer = Result Changes × World

      answered :
          (a : Answer) {x : Changes} {p q : World}
          → a ≡ (done changes, p)
          → a ≡ (done x, q)
          → (x ≡ changes) × (q ≡ p)
      answered a e f = ground arith

      encoded-done :
          (o : Option Text) (p : World) {d : Text} {q : World}
          → encoded env o p ≡ (done d, q)
          → q ≡ p
      encoded-done none p e = cc
      encoded-done (some x) p e = cc
