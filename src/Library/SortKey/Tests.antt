-- ===== src/Library/SortKey/Tests.antt =====
-- Two episodes of one season, the ninth and the tenth.
use atrium_go.Text.{has_prefix, trim}
use atrium_go.Base.{◌≡◌, refl, arith, inr, true, false, none, some, [], ◌==◌, between}
use atrium_go.Base.Int.{pos}
use atrium_go.Library.SortKey.Ascii.{sort_key_base-ascii, is_ascii}
use atrium_go.Library.SortKey.Order.{sort_key_for-episodes}
use atrium_go.Library.SortKey.{Unicode, sort_key_base, sort_key_for}
use atrium_go.Ports.Items.{ScannedItem}
use atrium_go.Text.{codes, str_lt}

abbrev plain : Unicode
plain = record {
  is_space = λ c. c == b' ';
  is_digit = between b'0' b'9';
  is_mark = λ _. false;
  to_lower = λ s. s;
  nfd = λ s. s;
}

abbrev ninth : ScannedItem
ninth = record {
  id = codes "f";
  library_id = codes "L";
  parent_id = [];
  kind = codes "Episode";
  name = codes "Zero";
  sort_key = [];
  sort_title = [];
  path = codes "a.mkv";
  root_ordinal = pos 0;
  index_number = some (pos 9);
  parent_index_number = some (pos 1);
  index_number_end = none;
  production_year = none;
  premiere_date = none;
  unplaceable = false;
  files = [];
}

abbrev tenth : ScannedItem
tenth = record ninth { name = codes "An"; index_number = some (pos 10) }

sort_key_for-episodes_example : str_lt (sort_key_for plain ninth) (sort_key_for plain tenth) ≡ true
sort_key_for-episodes_example =
    sort_key_for-episodes plain ninth tenth 1 1 9 10 refl refl refl refl refl refl refl refl
      (omega arith) (omega arith) (inr (refl, omega arith))

sort_key_base-ascii_example : is_ascii (sort_key_base plain (codes "The 3 Amigos")) ≡ true
sort_key_base-ascii_example = sort_key_base-ascii plain (codes "The 3 Amigos")

pads : sort_key_base plain (codes "the 3 a.m.") ≡ codes "0000000003 a m "
unfolding sort_key_base has_prefix trim
pads = refl
