-- ===== src/Scan/Scanner.antt =====
-- internal/scan/scan.go: one scan of one library, with every call of the item store and every
-- reading of the clock in its order. The environment chooses which calls of the database driver
-- fail, the instants of the clock, where the context is cancelled, what the walk of a root finds,
-- what the resolver derives from the readings and how a summary is encoded.
pub mod Monad
pub mod Effects
pub mod Refusal
pub mod Rows
pub mod Success
pub mod Stored
mod Tests
use atrium_go.Base.{
  ℕ, zero, suc, ◌+◌, ◌*◌, Bool, true, false, not, ◌&&◌, ◌||◌, Option, none, some, List, [], ◌∷◌,
  ◌==◌, if◌then◌else◌, length, take, drop,
}
use atrium_go.Base.Int.{ℤ, pos, negsuc, eqb_ℤ}
use atrium_go.ItemStore.{
  ScanBatch, items_for_library, apply_scan_batch, remove_items, claim_scan, release_scan,
}
pub use atrium_go.Library.Data.{Library, Entry, Reading, Note, Plan}
use atrium_go.Ports.Items.{ScannedItem, Time}
use atrium_go.Scan.Scanner.Monad.{
  M, World, ScanError, Failures, collection_type_unknown, cancelled, unavailable_root, empty_root,
  unresolved, identifier_mismatch, already_scanning, unencodable, endless, ◌>>=◌, ◌>>◌, pure, throw,
  read, write, act, now,
}
use atrium_go.Scan.{Reconciliation, Outcome, ok, mismatched, reconcile}
use atrium_go.Text.{Text, codes, str_eq, nonempty}

pub record Changes : Type 0 where
  pub added : List Text
  pub updated : List Text
  pub removed : List Text
  pub examined : ℕ
  pub skipped : ℕ
  pub unplaceable : ℕ

pub record Options : Type 0 where
  pub full : Bool
  pub allow_empty_root : Bool

pub record Config : Type 0 where
  pub has_items : Bool
  pub has_clock : Bool
  pub claimed_by : Text
  pub stale_after : ℤ
  pub batch_size : ℤ

pub record Scanner : Type 0 where
  pub claimed_by : Text
  pub stale_after : ℤ
  pub batch_size : ℕ

-- `CollectionType.Valid`, by `ParseCollectionType` over the three names.
unfoldable pub is_collection_type : Text → Bool
is_collection_type s =
    str_eq (codes "movies") s || str_eq (codes "tvshows") s || str_eq (codes "music") s

abbrev pub default_batch_size : ℕ
default_batch_size = 500

abbrev pub default_stale_after : ℤ
default_stale_after = pos (2 * 60 * 10000000)

-- The switch of `New` on the last two fields, and the defaults that stand for zero.
unfoldable pub stale_of : ℤ → Option ℤ
stale_of (negsuc n) = none
stale_of (pos zero) = some default_stale_after
stale_of (pos (suc n)) = some (pos (suc n))

unfoldable pub batch_of : ℤ → Option ℕ
batch_of (negsuc n) = none
batch_of (pos zero) = some default_batch_size
batch_of (pos (suc n)) = some (suc n)

abbrev pub scanner_of : Text → Option ℤ → Option ℕ → Option Scanner
scanner_of by none size = none
scanner_of by (some stale) none = none
scanner_of by (some stale) (some size) =
    some (record { claimed_by = by; stale_after = stale; batch_size = size })

-- `New`.
unfoldable pub new_scanner : Config → Option Scanner
unfolding stale_of batch_of
new_scanner c =
    if not c.has_items || not c.has_clock || not (nonempty c.claimed_by)
    then none
    else scanner_of c.claimed_by (stale_of c.stale_after) (batch_of c.batch_size)

-- `filesRecordedAtRoot`.
unfoldable pub files_recorded_at_root : List ScannedItem → ℕ → ℕ
files_recorded_at_root [] ordinal = 0
files_recorded_at_root (x ∷ xs) ordinal =
    let rest = files_recorded_at_root xs ordinal in
    if eqb_ℤ x.root_ordinal (pos ordinal) then length x.files + rest else rest

abbrev pub is_emptied : Reading → ℕ → Bool
is_emptied r recorded = length r.entries == 0 && not (recorded == 0)

-- `guardAgainstAnEmptyRoot`: the first root that is empty and was not.
unfoldable pub guard_against_an_empty_root : List Reading → List ScannedItem → M (Unit {0})
unfolding files_recorded_at_root
guard_against_an_empty_root [] previous = pure tt
guard_against_an_empty_root (r ∷ rs) previous =
    let recorded = files_recorded_at_root previous r.root in
    let rest = guard_against_an_empty_root rs previous in
    if is_emptied r recorded then throw (empty_root r.root recorded) else rest

-- What a walk finds: the candidate files and the paths that a rule refuses.
pub record Walked : Type 0 where
  pub entries : List Entry
  pub refused : List Note

-- What `read` returns.
pub record Found : Type 0 where
  pub readings : List Reading
  pub examined : ℕ
  pub skipped : ℕ

pub record Surroundings : Type 0 where
  pub store : Failures
  -- whether the context is cancelled when a root's turn comes
  pub is_cancelled : ℕ → Bool
  -- of a root and a collection type; none where it cannot be read
  pub walk : Text → Text → Option Walked
  pub resolve : Library → List Reading → Option Plan
  pub encode : Changes → Option Text

abbrev pub found_at : ℕ → Walked → Found → Found
found_at ordinal w f = record {
  readings = record { root = ordinal; entries = w.entries } ∷ f.readings;
  examined = length w.entries + f.examined;
  skipped = length w.refused + f.skipped;
}

module _ (env : Surroundings) where
  abbrev pub walked : ℕ → Option Walked → M Walked
  walked ordinal none = throw (unavailable_root ordinal)
  walked ordinal (some w) = pure w

  -- `read`, from one root on.
  unfoldable pub read_roots : Text → ℕ → List Text → M Found
  read_roots collection ordinal [] = pure (record { readings = []; examined = 0; skipped = 0 })
  read_roots collection ordinal (root ∷ roots) =
      if env.is_cancelled ordinal then throw cancelled else do
        w ← walked ordinal (env.walk root collection)
        f ← read_roots collection (suc ordinal) roots
        pure (found_at ordinal w f)

  abbrev pub resolved : Option Plan → M Plan
  resolved none = throw unresolved
  resolved (some p) = pure p

  abbrev pub reconciled : Outcome Reconciliation → M Reconciliation
  reconciled (ok r) = pure r
  reconciled (mismatched e) = throw (identifier_mismatch e)

  abbrev pub unless : Bool → M (Unit {0}) → M (Unit {0})
  unless true m = pure tt
  unless false m = m

  abbrev pub changes_of : Reconciliation → Found → Plan → Changes
  changes_of r f p = record {
    added = r.added;
    updated = r.updated;
    removed = r.remove;
    examined = f.examined;
    skipped = f.skipped;
    unplaceable = length p.unplaceable;
  }

  -- `Scan`, up to the claim.
  unfoldable pub prepare : Library → Options → M (Reconciliation × Changes)
  unfolding read_roots guard_against_an_empty_root
  prepare lib options = do
    unless (is_collection_type lib.collection_type) (throw collection_type_unknown)
    previous ← read env.store (items_for_library lib.id)
    found ← read_roots lib.collection_type 0 lib.roots
    unless options.allow_empty_root (guard_against_an_empty_root found.readings previous)
    plan ← resolved (env.resolve lib found.readings)
    r ← reconciled (reconcile previous plan.items options.full)
    pure (r, changes_of r found plan)

  abbrev pub batch_with : Scanner → Library → List ScannedItem → Time → ScanBatch
  batch_with s lib xs at = record {
    library_id = lib.id;
    items = xs;
    claimed_by = s.claimed_by;
    at = at;
  }

  -- `write`: the length is fuel, and a size of zero would take more.
  unfoldable pub write_batches : ℕ → Scanner → Library → List ScannedItem → M (Unit {0})
  write_batches fuel s lib [] = pure tt
  write_batches zero s lib (x ∷ xs) = throw endless
  write_batches (suc fuel) s lib (x ∷ xs) = do
    at ← now env.store
    write env.store (apply_scan_batch (batch_with s lib (take s.batch_size (x ∷ xs)) at))
    write_batches fuel s lib (drop s.batch_size (x ∷ xs))

  abbrev pub encoded : Option Text → M Text
  encoded none = throw unencodable
  encoded (some d) = pure d

  abbrev pub unless_lost : Bool × Text → M (Unit {0})
  unless_lost (true, displaced) = pure tt
  unless_lost (false, holder) = throw (already_scanning holder)

  -- `RemoveItems`, which calls nothing where no item is gone.
  abbrev pub remove_gone : List Text → M (Unit {0})
  remove_gone [] = pure tt
  remove_gone (k ∷ ks) = write env.store (remove_items (k ∷ ks))

  -- `Scan`, from the batches on.
  unfoldable pub commit_scan : Scanner → Library → Options → Reconciliation → Changes → M Changes
  unfolding write_batches
  commit_scan s lib options r changes = do
    write_batches (length r.write) s lib r.write
    remove_gone r.remove
    document ← encoded (env.encode changes)
    released_at ← now env.store
    write env.store (release_scan lib.id released_at document options.full)
    pure changes

  -- `Scan`, from the claim on.
  unfoldable pub perform : Scanner → Library → Options → Reconciliation × Changes → M Changes
  unfolding commit_scan
  perform s lib options decided = do
    claimed_at ← now env.store
    claim ← act env.store (claim_scan lib.id s.claimed_by claimed_at s.stale_after)
    unless_lost claim
    commit_scan s lib options decided.0 decided.1

  -- `Scan`.
  unfoldable pub scan : Scanner → Library → Options → M Changes
  unfolding prepare perform
  scan s lib options = do decided ← prepare lib options; perform s lib options decided
