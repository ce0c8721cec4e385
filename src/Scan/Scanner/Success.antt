-- ===== src/Scan/Scanner/Success.antt =====
-- What a scan that succeeds has written.
use mathlib.Core.Path.{fun_ext}
use atrium_go.Base.{
  ℕ, suc, ◌+◌, List, ◌∷◌, length, Bool-cases, inl, inr, [], ◌≡◌, refl, ap, sym, ◌∙◌, Bool, true,
  false, Option, none, some, map, arith, if◌then◌else◌,
}
use atrium_go.ItemStore.{ItemTables, claim_scan, items_for_library, by_item_id, columns, holds}
use atrium_go.Ports.Items.{ScannedItem}
use atrium_go.Scan.Scanner.Effects.{after-done, read-done, act-done, now-done}
use atrium_go.Scan.Scanner.Monad.{
  World, Result, done, pure, now, act, read, throw, collection_type_unknown,
}
use atrium_go.Scan.Scanner.Refusal.{prepare-Keeps}
use atrium_go.Scan.Scanner.{
  Library, Options, Scanner, Surroundings, Changes, Plan, Found, Walked, walked, found_at, resolved,
  reconciled, unless, unless_lost, read_roots, prepare, perform, scan, changes_of,
  is_collection_type, guard_against_an_empty_root,
}
use atrium_go.Scan.{Reconciliation, Outcome, ok, mismatched, reconcile, by_id_from}
use atrium_go.Tables.{find_row}
use atrium_go.Text.{Text}
use atrium_go.Scan.Scanner.Rows.{row_of, commit_scan-rows, claim_scan-items}

module _ (env : Surroundings) where
  perform-rows :
      (s : Scanner) (lib : Library) (options : Options) (d : Reconciliation × Changes) (k : Text)
      (w : World) {c : Changes} {v : World}
      → perform env s lib options d w ≡ (done c, v)
      → (c ≡ d.1)
        × (row_of v.tables k ≡ (
            if holds d.0.remove k
            then none
            else by_id_from (row_of w.tables) (map columns d.0.write) k))
  unfolding perform
  perform-rows s lib options d k w h =
      let (at, w1, a1, h1) = after-done (now env.store w) _ h in
      let (claim, w2, a2, h2) =
        after-done (act env.store (claim_scan lib.id s.claimed_by at s.stale_after) w1) _ h1 in
      let (_, w3, a3, h3) = after-done (unless_lost env claim w2) _ h2 in
      let (listed, rows) = commit_scan-rows env s lib options d.0 d.1 k w3 h3 in
      (
        listed,
        rows
            ∙ ap
                (λ (m : Text → Option ScannedItem).
                  if holds d.0.remove k then none else by_id_from m (map columns d.0.write) k)
                (fun_ext (λ j. ap (find_row (by_item_id j)) (
                  ap (λ (x : World). x.tables.items) (won claim w2 a3)
                  ∙ sym (
                      ap (λ (x : (Bool × Text) × ItemTables). x.1.items)
                        (act-done env.store _ w1 a2))
                  ∙ claim_scan-items lib.id s.claimed_by at s.stale_after w1.tables
                  ∙ ap (λ (t : ItemTables). t.items) (now-done env.store w a1)))),
      )
    where
      won :
          (claim : Bool × Text) (w : World) {u : Unit {0}} {v : World}
          → unless_lost env claim w ≡ (done u, v)
          → v ≡ w
      won (true, b) w e = cc
      won (false, b) w e = cc

  -- What the walks of the roots from one on gave: a reading of each, in their order, and the counts.
  abbrev pub ReadFrom : Text → ℕ → List Text → Found → Type 0
  ReadFrom collection ordinal [] f = (f.readings ≡ []) × (f.examined ≡ 0) × (f.skipped ≡ 0)
  ReadFrom collection ordinal (root ∷ roots) f =
      (walk : Walked) × (rest : Found) × (env.walk root collection ≡ some walk)
      × ReadFrom collection (suc ordinal) roots rest
      × (f.readings ≡ record { root = ordinal; entries = walk.entries } ∷ rest.readings)
      × (f.examined ≡ length walk.entries + rest.examined)
      × (f.skipped ≡ length walk.refused + rest.skipped)

  walked-some :
      (ordinal : ℕ) (o : Option Walked) (p : World) {x : Walked} {q : World}
      → walked env ordinal o p ≡ (done x, q)
      → o ≡ some x
  walked-some ordinal none p e = cc
  walked-some ordinal (some y) p e = cc

  read_roots-ReadFrom :
      (collection : Text) (ordinal : ℕ) (roots : List Text) (w : World) {f : Found} {v : World}
      → read_roots env collection ordinal roots w ≡ (done f, v)
      → ReadFrom collection ordinal roots f
  unfolding read_roots
  read_roots-ReadFrom collection ordinal [] w {f} h = (
    sym (ap (λ (x : Found). x.readings) (none_found w h)),
    sym (ap (λ (x : Found). x.examined) (none_found w h)),
    sym (ap (λ (x : Found). x.skipped) (none_found w h)),
  )
    where
      none_found :
          (p : World) {q : World}
          → pure {A = Found} (record { readings = []; examined = 0; skipped = 0 }) p ≡ (done f, q)
          → record { readings = []; examined = 0; skipped = 0 } ≡ f
      none_found p e = cc
  read_roots-ReadFrom collection ordinal (root ∷ roots) w {f} h =
      elim (Bool-cases (env.is_cancelled ordinal)) [
        | inl c ↦ absurd (cc (rw c at h))
        | inr c ↦
            let (walk, w1, a1, h1) =
              after-done (walked env ordinal (env.walk root collection) w) _ (rw c at h) in
            let (rest, w2, a2, h2) =
              after-done (read_roots env collection (suc ordinal) roots w1) _ h1 in
            let e = found_is walk rest h2 in
            (
              walk,
              rest,
              walked-some ordinal (env.walk root collection) w a1,
              read_roots-ReadFrom collection (suc ordinal) roots w1 a2,
              sym (ap (λ (x : Found). x.readings) e),
              sym (ap (λ (x : Found). x.examined) e),
              sym (ap (λ (x : Found). x.skipped) e),
            )
      ]
    where
      found_is :
          (walk : Walked) (rest : Found) {p q : World}
          → pure (found_at ordinal walk rest) p ≡ (done f, q)
          → found_at ordinal walk rest ≡ f
      found_is walk rest e = cc

  -- What a scan that succeeds decided, from what was stored and what the roots held.
  pub record Decided (lib : Library) (options : Options) (w : World) (d : Reconciliation × Changes)
      : Type 0 where
    pub found : Found
    pub reads : ReadFrom lib.collection_type 0 lib.roots found
    pub plan : Plan
    pub resolves : env.resolve lib found.readings ≡ some plan
    pub reconciles : reconcile (items_for_library lib.id w.tables) plan.items options.full ≡ ok d.0
    pub lists : d.1 ≡ changes_of env d.0 found plan

  prepare-Decided :
      (lib : Library) (options : Options) (w : World) {d : Reconciliation × Changes} {v : World}
      → prepare env lib options w ≡ (done d, v)
      → Decided lib options w d
  unfolding prepare
  prepare-Decided lib options w {d} h =
      let (_, w1, a1, h1) =
        after-done
          (unless env (is_collection_type lib.collection_type) (throw collection_type_unknown) w) _
          h in
      let (previous, w2, a2, h2) = after-done (read env.store (items_for_library lib.id) w1) _ h1 in
      let (found, w3, a3, h3) =
        after-done (read_roots env lib.collection_type 0 lib.roots w2) _ h2 in
      let (_, w4, a4, h4) =
        after-done
          (unless env options.allow_empty_root (guard_against_an_empty_root found.readings previous)
            w3)
          _ h3 in
      let (plan, w5, a5, h5) = after-done (resolved env (env.resolve lib found.readings) w4) _ h4 in
      let (r, w6, a6, h6) =
        after-done (reconciled env (reconcile previous plan.items options.full) w5) _ h5 in
      let stored =
        (read-done env.store (items_for_library lib.id) w1 a2).0
        ∙ ap (items_for_library lib.id) (known (is_collection_type lib.collection_type) w a1) in
      let decided = answered _ refl h6 in
      record {
        found = found;
        reads = read_roots-ReadFrom lib.collection_type 0 lib.roots w2 a3;
        plan = plan;
        resolves = was_resolved (env.resolve lib found.readings) w4 a5;
        reconciles =
            ap (λ xs. reconcile xs plan.items options.full) (sym stored)
            ∙ was_reconciled (reconcile previous plan.items options.full) w5 a6
            ∙ ap (λ (x : Reconciliation × Changes). ok x.0) decided;
        lists =
            sym (ap (λ (x : Reconciliation × Changes). x.1) decided)
            ∙ ap (λ (x : Reconciliation × Changes). changes_of env x.0 found plan) decided;
      }
    where
      answered :
          (a : Result (Reconciliation × Changes) × World) {x y : Reconciliation × Changes}
          {p q : World}
          → a ≡ (done x, p)
          → a ≡ (done y, q)
          → x ≡ y
      answered a e f = ground arith

      known :
          (b : Bool) (p : World) {u : Unit {0}} {q : World}
          → unless env b (throw collection_type_unknown) p ≡ (done u, q)
          → q.tables ≡ p.tables
      known true p e = cc
      known false p e = cc

      was_resolved :
          (o : Option Plan) (p : World) {x : Plan} {q : World}
          → resolved env o p ≡ (done x, q)
          → o ≡ some x
      was_resolved none p e = cc
      was_resolved (some y) p e = cc

      was_reconciled :
          (o : Outcome Reconciliation) (p : World) {x : Reconciliation} {q : World}
          → reconciled env o p ≡ (done x, q)
          → o ≡ ok x
      was_reconciled (ok y) p e = cc
      was_reconciled (mismatched y) p e = cc

  -- The same decision for every identifier.
  pub scan-Decided :
      (s : Scanner) (lib : Library) (options : Options) (w : World) {c : Changes} {v : World}
      → scan env s lib options w ≡ (done c, v)
      → (d : Reconciliation × Changes) × Decided lib options w d
        × (c ≡ d.1)
        × ((k : Text)
            → row_of v.tables k ≡ (
                if holds d.0.remove k
                then none
                else by_id_from (row_of w.tables) (map columns d.0.write) k))
  unfolding scan
  scan-Decided s lib options w h =
      let (d, w1, a, l) = after-done (prepare env lib options w) _ h in
      let kept =
        sym (ap (λ (r : Result (Reconciliation × Changes) × World). r.1.tables) a)
        ∙ (prepare-Keeps env lib options).tables_kept w in
      (
        d,
        prepare-Decided lib options w a,
        (perform-rows s lib options d [] w1 l).0,
        λ k.
            (perform-rows s lib options d k w1 l).1
            ∙ ap
                (λ t.
                  if holds d.0.remove k
                  then none
                  else by_id_from (row_of t) (map columns d.0.write) k)
                kept,
      )

  -- A scan that succeeds has walked each root, reconciled what was stored with what the readings of
  -- the walks resolve to, answers the
  -- changes that it decided, and has applied them in full, whatever the batches: afterwards an
  -- identifier that was to be removed has no row, one that was to be written has the columns last
  -- written for it, and every other one has the row that it had.
  pub scan-rows :
      (s : Scanner) (lib : Library) (options : Options) (k : Text) (w : World) {c : Changes}
      {v : World}
      → scan env s lib options w ≡ (done c, v)
      → (d : Reconciliation × Changes) × Decided lib options w d
        × (c ≡ d.1)
        × (row_of v.tables k ≡ (
            if holds d.0.remove k
            then none
            else by_id_from (row_of w.tables) (map columns d.0.write) k))
  scan-rows s lib options k w h =
      let (d, decided, listed, rows) = scan-Decided s lib options w h in
      (d, decided, listed, rows k)
