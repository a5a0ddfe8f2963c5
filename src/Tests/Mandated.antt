-- ===== src/Tests/Mandated.antt =====
-- Mandates and the tokens under them at concrete inputs.
use headofcontext.Prelude.{◌≡◌, ◌⊎◌, refl, none, some, [], ◌∷◌, lookup, arith}
use headofcontext.Prelude.Int.{pos, ◌+ℤ◌, ◌≤ℤ◌}
use headofcontext.Core.Errors.{Exception, ok, err}
use headofcontext.Tokens.Mandate.{Mandate}
use headofcontext.Tokens.Mandates.{issue, revoke, effective}
use headofcontext.Tokens.Mandates.Laws.{Issued, issue-Issued, issue_bounds, issue_at_expiry}
use headofcontext.Tokens.Mandates.Revoked.{at_write, revoke_stops_issue}
use headofcontext.Tokens.Service.{IssuedToken}
use headofcontext.World.{World}
use headofcontext.Tests.Fixtures.{
  env, doc_a, chain_of, token_settings, mandate_settings, mandate, with_mandate, mandates_open,
}

abbrev issued : IssuedToken
issued = record {
  token = "token";
  chain = chain_of doc_a;
  expires_at = pos 12;
  revocation_ids = "block0" ∷ "mandate:m1" ∷ [];
  mandate_id = some "m1";
}

issue_works :
    (issue env token_settings mandate_settings "m1" "agent:bot" doc_a none with_mandate).0
    ≡ ok issued
unfolding mandates_open
issue_works = refl

issue-Issued_example :
    (m : Mandate) × Issued env token_settings mandate_settings with_mandate "m1" "agent:bot" doc_a
      none issued m
issue-Issued_example =
    issue-Issued env token_settings mandate_settings "m1" "agent:bot" doc_a none with_mandate
      issue_works

mandate_found : lookup "m1" with_mandate.mandates ≡ some mandate
unfolding lookup
mandate_found = refl

span_positive : ¬ (effective env token_settings mandate_settings none mandate (pos 1) ≡ pos 0)
unfolding mandates_open
span_positive e = cc

issue_bounds_example :
    (issued.expires_at ≤ℤ pos 2 +ℤ mandate.max_token_ttl)
    × (issued.expires_at +ℤ pos 1 ≤ℤ mandate.expires_at +ℤ pos 2)
issue_bounds_example =
    issue_bounds env token_settings mandate_settings "m1" "agent:bot" doc_a none mandate
      with_mandate mandate_found span_positive issue_works

-- The mandate ends at the second reading of the clock.
abbrev brief : Mandate
brief = record mandate { expires_at = pos 1 }

abbrev with_brief : World
with_brief = record with_mandate { mandates = ("m1", brief) ∷ [] }

abbrev outliving : IssuedToken
outliving = record issued { expires_at = pos 1002 }

outliving_issued :
    (issue env token_settings mandate_settings "m1" "agent:bot" doc_a none with_brief).0
    ≡ ok outliving
unfolding mandates_open
outliving_issued = refl

brief_found : lookup "m1" with_brief.mandates ≡ some brief
unfolding lookup
brief_found = refl

issue_at_expiry_example : outliving.expires_at ≡ pos 2 +ℤ token_settings.ttl
issue_at_expiry_example =
    issue_at_expiry env token_settings mandate_settings "m1" "agent:bot" doc_a none brief with_brief
      brief_found refl (omega arith) (omega arith) outliving_issued

abbrev after_revoke : World
after_revoke = (revoke env token_settings mandate_settings "m1" "user:alice" "lost" with_mandate).1

revoke_stops_issue_example :
    ((e : Exception) × (token_settings.write_failure
          (at_write env token_settings mandate_settings with_mandate)
          "mandate:m1"
        ≡ some e)
      × ((revoke env token_settings mandate_settings "m1" "user:alice" "lost" with_mandate).0
          ≡ err e))
    ⊎ (¬ (
        (issue env token_settings mandate_settings "m1" "agent:bot" doc_a none after_revoke).0
        ≡ ok issued))
revoke_stops_issue_example =
    revoke_stops_issue env token_settings mandate_settings env token_settings "m1" "lost"
      "agent:bot" doc_a none mandate with_mandate after_revoke mandate_found refl refl refl
