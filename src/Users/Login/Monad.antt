-- ===== src/Users/Login/Monad.antt =====
-- The effects of the login path: the account store, a driver that may fail at any call, the clock,
-- the random source, and the count of key derivations that `Derivations` reports.
use atrium_go.Base.{
  refl, Bool-cases, inl, inr, arith, ◌≡◌, ℕ, ◌+◌, Bool, Option, none, some, if◌then◌else◌,
}
use atrium_go.Ports.Items.{Time}
use atrium_go.Text.{Text}
use atrium_go.Users.Store.{Accounts}

pub data LoginError : Type 0 where
  -- the two sentinels of the package
  credentials_refused account_disabled : LoginError
  -- the store's and the records' failures
  driver_failed statement_failed unreadable_policy unreadable_credential : LoginError
  no_randomness vanished : LoginError

pub record Environment : Type 0 where
  -- whether the n-th call of the driver fails
  pub fails : ℕ → Bool
  pub clock : ℕ → Time
  pub salts : ℕ → Option Text
  pub to_lower : Text → Text

pub record World (Document : Type 0) : Type 0 where
  pub accounts : Accounts Document
  pub derivations : ℕ
  pub calls : ℕ
  pub readings : ℕ
  pub draws : ℕ

pub data Result (A : Type 0) : Type 0 where
  ok : A → Result A
  err : LoginError → Result A

abbrev pub M : Type 0 → Type 0 → Type 0
M Document A = World Document → Result A × World Document

module _ {Document : Type 0} where
  abbrev pub after :
      {A B : Type 0} → Result A × World Document → (A → M Document B) → Result B × World Document
  after (ok a, w) f = f a w
  after (err e, w) f = (err e, w)

  infixl 5 ◌>>=◌ ◌>>◌
  abbrev pub ◌>>=◌ : {A B : Type 0} → M Document A → (A → M Document B) → M Document B
  ◌>>=◌ m f w = after (m w) f

  abbrev pub ◌>>◌ : {B : Type 0} → M Document (Unit {0}) → M Document B → M Document B
  ◌>>◌ m k = m >>= λ _. k

  abbrev pub pure : {A : Type 0} → A → M Document A
  pure a w = (ok a, w)

  abbrev pub throw : {A : Type 0} → LoginError → M Document A
  throw e w = (err e, w)

  abbrev pub called : World Document → World Document
  called w = record w { calls = w.calls + 1 }

  -- A query.
  unfoldable pub read : {A : Type 0} → Environment → (Accounts Document → A) → M Document A
  read env f w =
      if env.fails w.calls then (err driver_failed, called w) else (ok (f w.accounts), called w)

  abbrev pub commit :
      Option (Accounts Document) → World Document → Result (Unit {0}) × World Document
  commit none w = (err statement_failed, w)
  commit (some s) w = (ok tt, record w { accounts = s })

  -- A statement or a transaction: it fails with nothing changed.
  unfoldable pub write :
      Environment → (Accounts Document → Option (Accounts Document)) → M Document (Unit {0})
  write env f w =
      if env.fails w.calls then (err driver_failed, called w) else commit (f w.accounts) (called w)

  unfoldable pub now : Environment → M Document Time
  now env w = (ok (env.clock w.readings), record w { readings = w.readings + 1 })

  unfoldable pub count_derivation : M Document (Unit {0})
  count_derivation w = (ok tt, record w { derivations = w.derivations + 1 })

  unfoldable pub draw_salt : Environment → M Document Text
  draw_salt env w = elim (env.salts w.draws) [
    | none ↦ (err no_randomness, record w { draws = w.draws + 1 })
    | some s ↦ (ok s, record w { draws = w.draws + 1 })
  ]

  -- A chain that succeeds: its first step does, and the rest does from there.
  pub after-ok :
      {A B : Type 0} (r : Result A × World Document) (f : A → M Document B) {b : B}
      {w : World Document}
      → after r f ≡ (ok b, w)
      → (a : A) × (v : World Document) × (r ≡ (ok a, v)) × (f a v ≡ (ok b, w))
  after-ok (ok a, v) f h = (a, v, refl, h)
  after-ok (err e, v) f h = cc

  pub read-ok :
      {A : Type 0} (env : Environment) (f : Accounts Document → A) (w : World Document) {a : A}
      {v : World Document}
      → read env f w ≡ (ok a, v)
      → (a ≡ f w.accounts) × (v ≡ called w)
  unfolding read
  read-ok env f w h = elim (Bool-cases (env.fails w.calls)) [
    | inl e ↦ absurd (cc (rw e at h))
    | inr e ↦ ground arith
  ]
