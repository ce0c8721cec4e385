-- ===== src/Credentials/Tests.antt =====
-- A header whose values hold the separators of the grammar.
use atrium_go.Base.{◌≡◌, refl, [], false}
use atrium_go.Credentials.RoundTrip.{header, Quotable, parse_client_identification-header}
use atrium_go.Credentials.{ClientIdentification, parse_client_identification, is_identified}
use atrium_go.Text.{cut, codes}

abbrev phone : ClientIdentification
phone = record {
  client = codes "Atrium";
  device = codes "a, b";
  device_id = codes "x=1";
  version = codes "1.0";
  token = codes "key";
}

phone-Quotable : Quotable phone
phone-Quotable = record {
  client_unquoted = (refl, (refl, (refl, (refl, (refl, (refl, tt))))));
  device_unquoted = (refl, (refl, (refl, (refl, tt))));
  device_id_unquoted = (refl, (refl, (refl, tt)));
  version_unquoted = (refl, (refl, (refl, tt)));
  token_unquoted = (refl, (refl, (refl, tt)));
}

parse_client_identification-header_example : parse_client_identification (header phone) ≡ phone
parse_client_identification-header_example = parse_client_identification-header phone phone-Quotable

nothing_said : is_identified (parse_client_identification []) ≡ false
unfolding parse_client_identification cut
nothing_said = refl
