-- ===== src/ItemStore/Claims.antt =====
-- A claim on a library keeps the other scanners out.
use mathlib.Core.Path.{subst}
use atrium_go.Base.{
  ◌≡◌, refl, ap, ◌∙◌, inl, inr, true, false, Option, none, some, List, [], ◌∷◌, ◌++◌, arith,
  Bool-cases,
}
use atrium_go.Base.Int.{ℤ, ◌-ℤ◌, ltb_ℤ, wrap_i64}
use atrium_go.ItemStore.{
  ItemTables, ScanState, ScanBatch, scans_of, claims, is_live, take_claim, unclaimed, claim_scan,
  claim_with, renew_claim, apply_scan_batch, is_repeated,
}
use atrium_go.Ports.Items.{Time}
use atrium_go.Tables.{find_row, update_rows, count_rows}
use atrium_go.Tables.Keys.{find_row-append, find_row-update_rows, find_row-has}
use atrium_go.Text.Laws.{str_eq_refl}
use atrium_go.Text.{Text, str_eq}

abbrev library_of : ScanState → Text
library_of s = s.library_id

-- The library is claimed, and by no other.
record Claimed (library by : Text) (at : Time) (scans : List ScanState) : Type 0 where
  row : ScanState
  found : find_row (scans_of library) scans ≡ some row
  since : row.claimed_at ≡ some at
  holder : row.claimed_by ≡ some by
  alone : (other : Text) → str_eq by other ≡ false → count_rows (claims library other) scans ≡ 0

taken-alone :
    (library by other : Text) (at : Time) (scans : List ScanState)
    → str_eq by other ≡ false
    → count_rows (claims library other) (update_rows (scans_of library) (take_claim by at) scans)
      ≡ 0
unfolding count_rows update_rows
taken-alone library by other at [] n = refl
taken-alone library by other at (s ∷ scans) n =
    ground (arith, taken-alone library by other at scans n)

appended-alone :
    (library by other : Text) (at : Time) (scans : List ScanState)
    → str_eq by other ≡ false
    → find_row (scans_of library) scans ≡ none
    → count_rows (claims library other) (scans ++ take_claim by at (unclaimed library) ∷ []) ≡ 0
unfolding count_rows find_row
appended-alone library by other at [] n h = ground arith
appended-alone library by other at (s ∷ scans) n h =
    ground (arith, appended-alone library by other at scans n)

claim_with-Claimed :
    (o : Option ScanState) (library by : Text) (at : Time) (stale_after : ℤ) (t : ItemTables)
    {d : Text} {u : ItemTables}
    → find_row (scans_of library) t.scans ≡ o
    → claim_with o library by at stale_after t ≡ ((true, d), u)
    → Claimed library by at u.scans
unfolding claim_with
claim_with-Claimed none library by at stale_after t e h =
    subst (λ (u : ItemTables). Claimed library by at u.scans) (ap (λ r. r.1) h)
      (record {
        row = take_claim by at (unclaimed library);
        found =
            find_row-append (scans_of library) t.scans (take_claim by at (unclaimed library))
            ∙ rw e (rw (str_eq_refl library) refl);
        since = refl;
        holder = refl;
        alone = λ other n. appended-alone library by other at t.scans n e;
      })
claim_with-Claimed (some s) library by at stale_after t {d} {u} e h =
    elim (Bool-cases (is_live at stale_after s)) [
      | inl live ↦ absurd (cc (rw live at h))
      | inr stale ↦
          subst (λ (u : ItemTables). Claimed library by at u.scans) (ap (λ r. r.1) (rw stale at h))
            (record {
              row = take_claim by at s;
              found =
                  find_row-update_rows (scans_of library) (take_claim by at) library_of library
                    t.scans (λ r. refl)
                  ∙ rw e (rw (find_row-has (scans_of library) t.scans e) refl);
              since = refl;
              holder = refl;
              alone = λ other n. taken-alone library by other at t.scans n;
            })
    ]

claimed-lost :
    (o : Option ScanState) (library by other : Text) (at later : Time) (stale_after : ℤ)
    (u : ItemTables) (row : ScanState)
    → o ≡ some row
    → row.claimed_at ≡ some at
    → row.claimed_by ≡ some by
    → ltb_ℤ (wrap_i64 (later -ℤ at)) stale_after ≡ true
    → claim_with o library other later stale_after u ≡ ((false, by), u)
unfolding claim_with
claimed-lost o library by other at later stale_after u row e since holder young =
    rw (e, claim_with) (ground arith)

refused :
    (b : ScanBatch) (t : ItemTables)
    → count_rows (claims b.library_id b.claimed_by) t.scans ≡ 0
    → apply_scan_batch b t ≡ none
unfolding apply_scan_batch renew_claim
refused b t h = elim (Bool-cases (is_repeated b.items)) [
  | inl e ↦ rw e refl
  | inr e ↦ rw (e, h) refl
]

-- Once a claim on a library is won, a claim that comes before it is stale is lost to its holder and
-- changes nothing, and no other scanner's batch for the library is written.
pub claim_scan-exclusive :
    (library by other : Text) (at later : Time) (stale_after stale_later : ℤ) (t : ItemTables)
    (b : ScanBatch) {d : Text} {u : ItemTables}
    → claim_scan library by at stale_after t ≡ ((true, d), u)
    → ltb_ℤ (wrap_i64 (later -ℤ at)) stale_later ≡ true
    → b.library_id ≡ library
    → str_eq by b.claimed_by ≡ false
    → (claim_scan library other later stale_later u ≡ ((false, by), u))
      × (apply_scan_batch b u ≡ none)
unfolding claim_scan
claim_scan-exclusive library by other at later stale_after stale_later t b {d} {u} won young same
      apart =
    let c =
      claim_with-Claimed (find_row (scans_of library) t.scans) library by at stale_after t {d = d}
        {u = u} refl won in
    (
      claimed-lost (find_row (scans_of library) u.scans) library by other at later stale_later u
          c.row c.found c.since c.holder young,
      refused b u (rw same (c.alone b.claimed_by apart)),
    )
