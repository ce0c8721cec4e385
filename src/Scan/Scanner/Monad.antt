-- ===== src/Scan/Scanner/Monad.antt =====
-- The effects of a scan: the item store, whose driver may fail at any call, and the clock.
use atrium_go.Base.{ℕ, ◌+◌, Bool, Option, none, some, if◌then◌else◌}
use atrium_go.ItemStore.{ItemTables}
use atrium_go.Ports.Items.{Time}
use atrium_go.Scan.{IdentifierMismatch}
use atrium_go.Text.{Text}

pub data ScanError : Type 0 where
  -- refusals
  collection_type_unknown cancelled unresolved : ScanError
  unavailable_root : ℕ → ScanError
  empty_root : ℕ → ℕ → ScanError
  identifier_mismatch : IdentifierMismatch → ScanError
  already_scanning : Text → ScanError
  -- failures of the store and of the encoding
  driver_failed statement_failed unencodable : ScanError
  -- a loop that does not advance
  endless : ScanError

pub record Failures : Type 0 where
  -- whether the n-th call of the driver fails
  pub fails : ℕ → Bool
  pub clock : ℕ → Time

pub record World : Type 0 where
  pub tables : ItemTables
  pub calls : ℕ
  pub readings : ℕ

pub data Result (A : Type 0) : Type 0 where
  done : A → Result A
  err : ScanError → Result A

abbrev pub M : Type 0 → Type 0
M A = World → Result A × World

abbrev pub after : {A B : Type 0} → Result A × World → (A → M B) → Result B × World
after (done a, w) f = f a w
after (err e, w) f = (err e, w)

infixl 5 ◌>>=◌ ◌>>◌
abbrev pub ◌>>=◌ : {A B : Type 0} → M A → (A → M B) → M B
◌>>=◌ m f w = after (m w) f

abbrev pub ◌>>◌ : {B : Type 0} → M (Unit {0}) → M B → M B
m >> k = m >>= λ _. k

abbrev pub pure : {A : Type 0} → A → M A
pure a w = (done a, w)

abbrev pub throw : {A : Type 0} → ScanError → M A
throw e w = (err e, w)

abbrev pub called : World → World
called w = record w { calls = w.calls + 1 }

-- A query.
unfoldable pub read : {A : Type 0} → Failures → (ItemTables → A) → M A
read env f w =
    if env.fails w.calls then (err driver_failed, called w) else (done (f w.tables), called w)

abbrev pub commit : Option ItemTables → World → Result (Unit {0}) × World
commit none w = (err statement_failed, w)
commit (some t) w = (done tt, record w { tables = t })

-- A transaction: it fails with nothing changed.
unfoldable pub write : Failures → (ItemTables → Option ItemTables) → M (Unit {0})
write env f w =
    if env.fails w.calls then (err driver_failed, called w) else commit (f w.tables) (called w)

-- A transaction that answers.
unfoldable pub act : {A : Type 0} → Failures → (ItemTables → A × ItemTables) → M A
act env f w =
    if env.fails w.calls
    then (err driver_failed, called w)
    else (done (f w.tables).0, record (called w) { tables = (f w.tables).1 })

unfoldable pub now : Failures → M Time
now env w = (done (env.clock w.readings), record w { readings = w.readings + 1 })
