-- ===== src/Credentials/Precedence.antt =====
-- The headers in the order in which they are asked.
use atrium_go.Base.{◌≡◌, ap, ◌∙◌, true, false, Bool, if◌then◌else◌}
use atrium_go.Credentials.RoundTrip.{header, Quotable, parse_client_identification-header}
use atrium_go.Credentials.{
  ClientIdentification, parse_client_identification, is_identified, presented_client_identification,
}
use atrium_go.Text.{Text}

-- A client whose header names something is identified by that header: from Authorization whatever
-- X-Emby-Authorization says, and from X-Emby-Authorization where Authorization yields nothing.
pub presented_client_identification-header :
    (r : ClientIdentification) (second yields_nothing : Text)
    → Quotable r
    → is_identified r ≡ true
    → is_identified (parse_client_identification yields_nothing) ≡ false
    → (presented_client_identification (header r) second ≡ r)
      × (presented_client_identification yields_nothing (header r) ≡ r)
unfolding presented_client_identification
presented_client_identification-header r second yields_nothing q h e = (
  rw (parse_client_identification-header r q)
      (ap (λ (b : Bool). if b then r else parse_client_identification second) h),
  ap
        (λ (b : Bool).
          if b
          then parse_client_identification yields_nothing
          else parse_client_identification (header r))
        e
      ∙ parse_client_identification-header r q,
)
