-- ===== src/Library/Data.antt =====
-- internal/ports/libraries.go and internal/library/resolve.go: a library as it is configured, what a
-- walk read of its roots, and what that resolves to.
use atrium_go.Base.{ℕ, Bool, List}
use atrium_go.Base.Int.{ℤ}
use atrium_go.Ports.Items.{ScannedItem, Time}
use atrium_go.Text.{Text}

pub record Library : Type 0 where
  pub id : Text
  pub name : Text
  pub name_folded : Text
  pub collection_type : Text
  pub case_sensitive : Bool
  pub roots : List Text
  pub created_at : Time

pub record Entry : Type 0 where
  pub path : Text
  pub size : ℤ
  pub modified_at : Time

pub record Reading : Type 0 where
  pub root : ℕ
  pub entries : List Entry

pub record Note : Type 0 where
  pub root : ℕ
  pub path : Text
  pub reason : Text

pub record Plan : Type 0 where
  pub items : List ScannedItem
  pub unplaceable : List Note
  pub skipped : List Note
