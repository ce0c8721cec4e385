-- ===== src/Scan/Scanner/Effects.antt =====
-- What the steps of a chain do to the tables.
use atrium_go.Base.{
  ◌≡◌, refl, ◌∙◌, inl, inr, ◌⊎◌, Bool, true, false, Option, none, some, arith, Bool-cases,
}
use atrium_go.ItemStore.{ItemTables}
use atrium_go.Ports.Items.{Time}
use atrium_go.Scan.Scanner.Monad.{
  M, World, ◌>>=◌, Result, ScanError, Failures, done, err, after, called, commit, read, write, act,
  now, collection_type_unknown, cancelled, unresolved, unavailable_root, empty_root,
  identifier_mismatch, already_scanning, driver_failed, statement_failed, unencodable, endless,
}

-- The two ways in which a chain ends.
pub after-done :
    {A B : Type 0} (r : Result A × World) (f : A → M B) {b : B} {w : World}
    → after r f ≡ (done b, w)
    → (a : A) × (v : World) × (r ≡ (done a, v)) × (f a v ≡ (done b, w))
after-done (done a, v) f h = (a, v, refl, h)
after-done (err e, v) f h = cc

pub after-err :
    {A B : Type 0} (r : Result A × World) (f : A → M B) {e : ScanError} {w : World}
    → after r f ≡ (err e, w)
    → (r ≡ (err e, w)) ⊎ ((a : A) × (v : World) × (r ≡ (done a, v)) × (f a v ≡ (err e, w)))
after-err (done a, v) f h = inr (a, v, refl, h)
after-err (err e, v) f h = inl cc

-- Steps that leave the tables as they are.
pub record Keeps {A : Type 0} (m : M A) : Type 0 where
  pub tables_kept : (w : World) → (m w).1.tables ≡ w.tables

pub chain-Keeps :
    {A B : Type 0} (m : M A) (f : A → M B) → Keeps m → ((a : A) → Keeps (f a)) → Keeps (m >>= f)
chain-Keeps {A = A} {B = B} m f h k = record { tables_kept = λ w. kept (m w) w (h.tables_kept w) }
  where
    kept :
        (r : Result A × World) (w : World) → r.1.tables ≡ w.tables → (after r f).1.tables ≡ w.tables
    kept (done a, v) w e = (k a).tables_kept v ∙ e
    kept (err x, v) w e = e

pub read-Keeps : {A : Type 0} (env : Failures) (f : ItemTables → A) → Keeps (read env f)
unfolding read
read-Keeps env f = record { tables_kept = λ w. ground arith }

pub read-done :
    {A : Type 0} (env : Failures) (f : ItemTables → A) (w : World) {a : A} {v : World}
    → read env f w ≡ (done a, v)
    → (a ≡ f w.tables) × (v.tables ≡ w.tables)
unfolding read
read-done env f w h = elim (Bool-cases (env.fails w.calls)) [
  | inl e ↦ absurd (cc (rw e at h))
  | inr e ↦ ground arith
]

pub now-done :
    (env : Failures) (w : World) {a : Time} {v : World}
    → now env w ≡ (done a, v)
    → v.tables ≡ w.tables
unfolding now
now-done env w h = cc

pub write-done :
    (env : Failures) (f : ItemTables → Option ItemTables) (w : World) {u : Unit {0}} {v : World}
    → write env f w ≡ (done u, v)
    → f w.tables ≡ some v.tables
unfolding write
write-done env f w {u} {v} h = elim (Bool-cases (env.fails w.calls)) [
  | inl e ↦ absurd (cc (rw e at h))
  | inr e ↦ committed (f w.tables) (rw e at h)
]
  where
    committed : (o : Option ItemTables) → commit o (called w) ≡ (done u, v) → o ≡ some v.tables
    committed none k = cc
    committed (some t) k = cc

pub act-done :
    {A : Type 0} (env : Failures) (f : ItemTables → A × ItemTables) (w : World) {a : A} {v : World}
    → act env f w ≡ (done a, v)
    → f w.tables ≡ (a, v.tables)
unfolding act
act-done env f w h = elim (Bool-cases (env.fails w.calls)) [
  | inl e ↦ absurd (cc (rw e at h))
  | inr e ↦ ground arith
]

-- A refusal: the scan found that it must not write.
unfoldable pub is_refusal : ScanError → Bool
is_refusal collection_type_unknown = true
is_refusal cancelled = true
is_refusal unresolved = true
is_refusal (unavailable_root n) = true
is_refusal (empty_root n m) = true
is_refusal (identifier_mismatch e) = true
is_refusal (already_scanning by) = true
is_refusal driver_failed = false
is_refusal statement_failed = false
is_refusal unencodable = false
is_refusal endless = false

pub write-err :
    (env : Failures) (f : ItemTables → Option ItemTables) (w : World) {e : ScanError} {v : World}
    → write env f w ≡ (err e, v)
    → is_refusal e ≡ false
unfolding write is_refusal
write-err env f w {e} {v} h = elim (Bool-cases (env.fails w.calls)) [
  | inl b ↦ cc (rw b at h)
  | inr b ↦ committed (f w.tables) (rw b at h)
]
  where
    committed : (o : Option ItemTables) → commit o (called w) ≡ (err e, v) → is_refusal e ≡ false
    committed none k = cc
    committed (some t) k = cc

pub act-err :
    {A : Type 0} (env : Failures) (f : ItemTables → A × ItemTables) (w : World) {e : ScanError}
    {v : World}
    → act env f w ≡ (err e, v)
    → is_refusal e ≡ false
unfolding act is_refusal
act-err env f w h = elim (Bool-cases (env.fails w.calls)) [
  | inl b ↦ cc (rw b at h)
  | inr b ↦ absurd (cc (rw b at h))
]

pub now-err :
    (env : Failures) (w : World) {e : ScanError} {v : World}
    → now env w ≡ (err e, v)
    → is_refusal e ≡ false
unfolding now is_refusal
now-err env w h = cc
