-- ===== src/Ports/Items.antt =====
-- internal/ports/items.go: what a scan writes.
use atrium_go.Base.{Bool, Option, List}
use atrium_go.Base.Int.{ℤ}
use atrium_go.Text.{Text}

-- An instant by its tick count.
abbrev pub Time : Type 0
Time = ℤ

pub record ScannedFile : Type 0 where
  pub ordinal : ℤ
  pub path : Text
  pub size : ℤ
  pub modified_at : Time

pub record ScannedItem : Type 0 where
  pub id : Text
  pub library_id : Text
  pub parent_id : Text
  pub kind : Text  -- Type
  pub name : Text
  pub sort_key : Text
  pub sort_title : Text
  pub path : Text
  pub root_ordinal : ℤ
  pub index_number : Option ℤ
  pub parent_index_number : Option ℤ
  pub index_number_end : Option ℤ
  pub production_year : Option ℤ
  pub premiere_date : Option Time
  pub unplaceable : Bool
  pub files : List ScannedFile
