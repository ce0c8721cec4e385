-- ===== src/Scan/Scanner/Refusal.antt =====
-- A scan that is refused leaves the store as it found it.
use atrium_go.Base.{
  ◌≡◌, refl, ap, sym, ◌∙◌, inl, inr, ℕ, zero, suc, Bool, true, false, Option, none, some, List, [],
  ◌∷◌, arith, Bool-cases, length, take, drop,
}
use atrium_go.Base.Int.{ℤ}
use atrium_go.ItemStore.{
  ItemTables, ScanState, claim_scan, claim_with, scans_of, apply_scan_batch, release_scan,
  items_for_library, is_live,
}
use atrium_go.Ports.Items.{ScannedItem, Time}
use atrium_go.Scan.Scanner.Effects.{
  Keeps, chain-Keeps, read-Keeps, after-err, is_refusal, write-err, act-err, now-err, now-done,
  act-done,
}
use atrium_go.Scan.Scanner.Monad.{
  M, World, ◌>>=◌, pure, throw, read, ScanError, err, now, act, write, collection_type_unknown,
}
use atrium_go.Scan.Scanner.{
  Library, Reading, Options, Scanner, Surroundings, Changes, Plan, Walked, walked, found_at,
  resolved, reconciled, unless, unless_lost, encoded, read_roots, guard_against_an_empty_root,
  prepare, perform, commit_scan, remove_gone, scan, write_batches, batch_with, is_collection_type,
  changes_of,
}
use atrium_go.Scan.{Reconciliation, Outcome, ok, mismatched, reconcile}
use atrium_go.Tables.{find_row}
use atrium_go.Text.{Text}

guard_against_an_empty_root-Keeps :
    (rs : List Reading) (previous : List ScannedItem)
    → Keeps (guard_against_an_empty_root rs previous)
unfolding guard_against_an_empty_root
guard_against_an_empty_root-Keeps [] previous = record { tables_kept = λ w. refl }
guard_against_an_empty_root-Keeps (r ∷ rs) previous = record {
  tables_kept = λ w. ground (arith, (guard_against_an_empty_root-Keeps rs previous).tables_kept w);
}

pub claim_scan-lost :
    (library by : Text) (at : Time) (stale_after : ℤ) (t : ItemTables) {d : Text} {u : ItemTables}
    → claim_scan library by at stale_after t ≡ ((false, d), u)
    → u ≡ t
unfolding claim_scan claim_with
claim_scan-lost library by at stale_after t {d} {u} h = lost (find_row (scans_of library) t.scans) h
  where
    lost :
        (o : Option ScanState) → claim_with o library by at stale_after t ≡ ((false, d), u) → u ≡ t
    lost none k = cc
    lost (some s) k = elim (Bool-cases (is_live at stale_after s)) [
      | inl e ↦ cc (rw e at k)
      | inr e ↦ absurd (cc (rw e at k))
    ]

module _ (env : Surroundings) where
  walked-Keeps : (ordinal : ℕ) (o : Option Walked) → Keeps (walked env ordinal o)
  walked-Keeps ordinal none = record { tables_kept = λ w. refl }
  walked-Keeps ordinal (some x) = record { tables_kept = λ w. refl }

  resolved-Keeps : (o : Option Plan) → Keeps (resolved env o)
  resolved-Keeps none = record { tables_kept = λ w. refl }
  resolved-Keeps (some p) = record { tables_kept = λ w. refl }

  reconciled-Keeps : (o : Outcome Reconciliation) → Keeps (reconciled env o)
  reconciled-Keeps (ok r) = record { tables_kept = λ w. refl }
  reconciled-Keeps (mismatched e) = record { tables_kept = λ w. refl }

  unless-Keeps : (b : Bool) (m : M (Unit {0})) → Keeps m → Keeps (unless env b m)
  unless-Keeps true m h = record { tables_kept = λ w. refl }
  unless-Keeps false m h = h

  read_roots-Keeps :
      (collection : Text) (ordinal : ℕ) (roots : List Text)
      → Keeps (read_roots env collection ordinal roots)
  unfolding read_roots
  read_roots-Keeps collection ordinal [] = record { tables_kept = λ w. refl }
  read_roots-Keeps collection ordinal (root ∷ roots) =
      uncancelled_root (read_roots-Keeps collection (suc ordinal) roots)
    where
      found_root :
          Keeps (read_roots env collection (suc ordinal) roots)
          → Keeps (
              walked env ordinal (env.walk root collection) >>= λ w.
              read_roots env collection (suc ordinal) roots >>= λ f. pure (found_at ordinal w f))
      found_root rest =
          chain-Keeps (walked env ordinal (env.walk root collection)) _
            (walked-Keeps ordinal (env.walk root collection))
            (λ w.
              chain-Keeps (read_roots env collection (suc ordinal) roots)
                (λ f. pure (found_at ordinal w f)) rest (λ f. record { tables_kept = λ v. refl }))

      uncancelled_root :
          Keeps (read_roots env collection (suc ordinal) roots)
          → Keeps (read_roots env collection ordinal (root ∷ roots))
      uncancelled_root rest = record {
        tables_kept = λ w. elim (Bool-cases (env.is_cancelled ordinal)) [
          | inl e ↦ rw e refl
          | inr e ↦ rw e ((found_root rest).tables_kept w)
        ];
      }

  pub prepare-Keeps : (lib : Library) (options : Options) → Keeps (prepare env lib options)
  unfolding prepare
  prepare-Keeps lib options =
      chain-Keeps
        (unless env (is_collection_type lib.collection_type) (throw collection_type_unknown)) _
        (unless-Keeps (is_collection_type lib.collection_type) (throw collection_type_unknown)
          (record { tables_kept = λ w. refl }))
        (λ _.
          chain-Keeps (read env.store (items_for_library lib.id)) _
            (read-Keeps env.store (items_for_library lib.id))
            (λ previous.
              chain-Keeps (read_roots env lib.collection_type 0 lib.roots) _
                (read_roots-Keeps lib.collection_type 0 lib.roots)
                (λ found.
                  chain-Keeps
                    (unless env options.allow_empty_root
                      (guard_against_an_empty_root found.readings previous))
                    _
                    (unless-Keeps options.allow_empty_root
                      (guard_against_an_empty_root found.readings previous)
                      (guard_against_an_empty_root-Keeps found.readings previous))
                    (λ _.
                      chain-Keeps (resolved env (env.resolve lib found.readings)) _
                        (resolved-Keeps (env.resolve lib found.readings))
                        (λ plan.
                          chain-Keeps (reconciled env (reconcile previous plan.items options.full))
                            (λ r. pure (r, changes_of env r found plan))
                            (reconciled-Keeps (reconcile previous plan.items options.full))
                            (λ r. record { tables_kept = λ w. refl }))))))

  write_batches-err :
      (fuel : ℕ) (s : Scanner) (lib : Library) (xs : List ScannedItem) (w : World) {e : ScanError}
      {v : World}
      → write_batches env fuel s lib xs w ≡ (err e, v)
      → is_refusal e ≡ false
  unfolding write_batches is_refusal
  write_batches-err fuel s lib [] w h = cc
  write_batches-err zero s lib (x ∷ xs) w h = cc
  write_batches-err (suc fuel) s lib (x ∷ xs) w {e} {v} h = elim (after-err (now env.store w) _ h) [
    | inl n ↦ now-err env.store w n
    | inr (at, w1, n, k) ↦
        elim (after-err
          (write env.store (apply_scan_batch (batch_with env s lib (take s.batch_size (x ∷ xs)) at))
            w1)
          _ k) [
            | inl m ↦ write-err env.store _ w1 m
            | inr (u, w2, m, l) ↦ write_batches-err fuel s lib (drop s.batch_size (x ∷ xs)) w2 l
          ]
  ]

  encoded-err :
      (o : Option Text) (w : World) {e : ScanError} {v : World}
      → encoded env o w ≡ (err e, v)
      → is_refusal e ≡ false
  unfolding is_refusal
  encoded-err none w h = cc
  encoded-err (some d) w h = cc

  remove_gone-err :
      (ks : List Text) (w : World) {e : ScanError} {v : World}
      → remove_gone env ks w ≡ (err e, v)
      → is_refusal e ≡ false
  remove_gone-err [] w h = cc
  remove_gone-err (k ∷ ks) w h = write-err env.store _ w h

  commit_scan-err :
      (s : Scanner) (lib : Library) (options : Options) (r : Reconciliation) (changes : Changes)
      (w : World) {e : ScanError} {v : World}
      → commit_scan env s lib options r changes w ≡ (err e, v)
      → is_refusal e ≡ false
  unfolding commit_scan
  commit_scan-err s lib options r changes w h =
      elim (after-err (write_batches env (length r.write) s lib r.write w) _ h) [
        | inl a ↦ write_batches-err (length r.write) s lib r.write w a
        | inr (_, w1, _, h1) ↦ elim (after-err (remove_gone env r.remove w1) _ h1) [
          | inl a ↦ remove_gone-err r.remove w1 a
          | inr (_, w2, _, h2) ↦ elim (after-err (encoded env (env.encode changes) w2) _ h2) [
            | inl a ↦ encoded-err (env.encode changes) w2 a
            | inr (d, w3, _, h3) ↦ elim (after-err (now env.store w3) _ h3) [
              | inl a ↦ now-err env.store w3 a
              | inr (at, w4, _, h4) ↦
                  elim (after-err (write env.store (release_scan lib.id at d options.full) w4) _
                    h4) [ inl a ↦ write-err env.store _ w4 a | inr (_, w5, _, h5) ↦ absurd (cc h5) ]
            ]
          ]
        ]
      ]

  lost_claim :
      (claim : Bool × Text) (w : World) {e : ScanError} {v : World}
      → unless_lost env claim w ≡ (err e, v)
      → (claim.0 ≡ false) × (v ≡ w)
  lost_claim (true, d) w h = cc
  lost_claim (false, d) w h = (refl, cc)

  perform-err :
      (s : Scanner) (lib : Library) (options : Options) (d : Reconciliation × Changes) (w : World)
      {e : ScanError} {v : World}
      → perform env s lib options d w ≡ (err e, v)
      → is_refusal e ≡ true
      → v.tables ≡ w.tables
  unfolding perform
  perform-err s lib options d w {e} {v} h refusal = elim (after-err (now env.store w) _ h) [
    | inl a ↦ absurd (cc (now-err env.store w a))
    | inr (at, w1, a1, h1) ↦
        elim (after-err (act env.store (claim_scan lib.id s.claimed_by at s.stale_after) w1) _ h1) [
          | inl a ↦ absurd (cc (act-err env.store _ w1 a))
          | inr (claim, w2, a2, h2) ↦ elim (after-err (unless_lost env claim w2) _ h2) [
            | inl a ↦
                let (beaten, same) = lost_claim claim w2 a in
                ap (λ (x : World). x.tables) same
                ∙ claim_scan-lost lib.id s.claimed_by at s.stale_after w1.tables
                    (act-done env.store _ w1 a2 ∙ ap (λ b. ((b, claim.1), w2.tables)) beaten)
                ∙ now-done env.store w a1
            | inr (_, w3, _, h3) ↦ absurd (cc (commit_scan-err s lib options d.0 d.1 w3 h3))
          ]
        ]
  ]

  -- A scan that is refused, because of the collection type, a cancelled context, a root that cannot
  -- be read or that reads as emptied, names that do not resolve, a changed identifier or another
  -- scanner's claim, leaves the items, their files and the claims as they were.
  pub scan-refused :
      (s : Scanner) (lib : Library) (options : Options) (w : World) {e : ScanError} {v : World}
      → scan env s lib options w ≡ (err e, v)
      → is_refusal e ≡ true
      → v.tables ≡ w.tables
  unfolding scan
  scan-refused s lib options w h refusal = elim (after-err (prepare env lib options w) _ h) [
    | inl a ↦ ap (λ r. r.1.tables) (sym a) ∙ (prepare-Keeps lib options).tables_kept w
    | inr (d, w1, a, k) ↦
        perform-err s lib options d w1 k refusal
        ∙ ap (λ r. r.1.tables) (sym a)
        ∙ (prepare-Keeps lib options).tables_kept w
  ]
