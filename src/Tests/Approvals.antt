-- ===== src/Tests/Approvals.antt =====
-- The gate and its approvals at concrete inputs.
use headofcontext.Prelude.{
  ◌≡◌, refl, ◌↔◌, ◌⊎◌, String, true, false, none, some, [], ◌∷◌, inl, inr, any, Bool-cases, eq_iff,
  lookup, or_text, ◌==◌, arith, if◌then◌else◌,
}
use headofcontext.Prelude.Int.{pos}
use headofcontext.Core.Errors.{Result, ok}
use headofcontext.Core.Capability
use headofcontext.Core.Capability.{Kind}
use headofcontext.Core.Decision.{
  Decision, Verdict, allow, deny, require_approval, invoke, no_context, policy_allowed,
  is_require_approval, most_restrictive,
}
use headofcontext.Actions.Request.{ApprovalRequest, ApprovalStatus, approved, consumed, pending}
use headofcontext.Actions.Policies.{require_approval_evaluate, composite_evaluate, answer}
use headofcontext.Actions.Policies.Laws.{
  AllAtMost, SomeAnswers, composite_evaluate_lem, require_approval_evaluate_iff,
}
use headofcontext.Actions.Store.{expire_pending}
use headofcontext.Actions.Store.Laws.{IsSpent}
use headofcontext.Actions.Store.Steps.{IsKeyed}
use headofcontext.Actions.Resolve.Laws.{Resolved, resolved_row}
use headofcontext.Actions.Gate.{GateResult, redeem, resolve, parked, gate}
use headofcontext.Actions.Gate.Once.{
  none_more, then_call, swept_all, redeemed_call, redeem_once, calls-IsSpent,
}
use headofcontext.Actions.Gate.Redeem.{redeem_allow, Answers, spent}
use headofcontext.Actions.Gate.Parked.{Parked, gate-Parked}
use headofcontext.Actions.Gate.Resolved.{resolve_permitted}
use headofcontext.World.{World, ticked}
use headofcontext.Tests.Fixtures.{
  env, start, settings, mailer, mail_policy, decided, with_request, request, gate_open,
}

with_request-IsKeyed : (status : ApprovalStatus) → IsKeyed (with_request status)
unfolding lookup
with_request-IsKeyed status k r found = elim (Bool-cases ("r1" == k)) [
  | inl same ↦ grind (arith, eq_iff "r1" k)
  | inr differ ↦ grind (arith, eq_iff "r1" k)
]

abbrev redeemed : Decision
redeemed = decided allow "allowed" mailer "tool:mail" invoke (pos 3) 1 "iiiii" []

redeem_works : (redeem env settings mailer "r1" none none (with_request approved)).0 ≡ ok redeemed
unfolding gate_open
redeem_works = refl

redeem_allow_example :
    (r : ApprovalRequest) × (lookup "r1" (with_request approved).approvals ≡ some r)
    × Answers env settings mailer (or_text none r.tool) "{}" (pos 0) r
    × (lookup "r1" (redeem env settings mailer "r1" none none (with_request approved)).1.approvals
        ≡ some (spent env settings (pos 1) r))
redeem_allow_example =
    redeem_allow env settings mailer "r1" none none (with_request approved)
      (with_request-IsKeyed approved) redeem_works refl

-- The sweep that runs between the two attempts.
abbrev after_sweep : World
after_sweep =
    (expire_pending (pos 60)
      (redeem env settings mailer "r1" none none (with_request approved)).1).1

abbrev refused : Decision
refused = decided deny "approval_consumed" mailer "tool:mail" invoke (pos 8) 0 "iiiiiiiiii" []

redeem_again : (redeem env settings mailer "r1" none (some "tool:mail") after_sweep).0 ≡ ok refused
unfolding gate_open expire_pending
redeem_again = refl

redeem_once_example : ¬ (refused.outcome ≡ allow)
redeem_once_example =
    redeem_once env settings mailer mailer "r1" none none none (some "tool:mail")
      (with_request approved) after_sweep (with_request-IsKeyed approved) redeem_works refl
      (then_call none_more (swept_all (pos 60) refl)) redeem_again

abbrev resolved : ApprovalRequest
resolved = resolved_row env true "user:carol" (pos 0) "fine" (request pending)

resolve_works :
    (resolve env settings "r1" "user:carol" true "fine" (with_request pending)).0 ≡ ok resolved
unfolding gate_open
resolve_works = refl

resolve_permitted_example :
    (r : ApprovalRequest) × Resolved env
      (pos 0)
      "r1"
      "user:carol"
      true
      "fine"
      false
      (with_request pending)
      (resolve env settings "r1" "user:carol" true "fine" (with_request pending)).1
      resolved
      r
    × ((if "user:carol" == r.subject
          then ok false
          else env.check (ticked (with_request pending)) "user:carol" "approver" r.tool)
        ≡ ok true)
resolve_permitted_example =
    resolve_permitted env settings "r1" "user:carol" true "fine" (with_request pending)
      resolve_works

consumed-IsSpent : IsSpent "r1" (with_request consumed).approvals
unfolding lookup
consumed-IsSpent = record { request = request consumed; found = refl; final = refl }

calls-IsSpent_example :
    IsSpent "r1"
      (expire_pending
        (pos 900)
        (redeem env settings mailer "r1" none none (with_request consumed)).1).1.approvals
calls-IsSpent_example =
    calls-IsSpent String "r1"
      (then_call (then_call none_more (redeemed_call env settings mailer "r1" none none refl))
        (swept_all (pos 900) refl))
      consumed-IsSpent

abbrev asks : Verdict
asks = record { outcome = require_approval; reason = "approval_required" }

mail_asks :
    require_approval_evaluate mail_policy mailer invoke "tool:mail" "{}" no_context ≡ ok asks
unfolding gate_open
mail_asks = refl

require_approval_evaluate_iff_example :
    ((asks.outcome ≡ require_approval) ↔ (
      (invoke.kind ≡ Kind.act)
      × (any
            (λ c. Capability.covers c (record { kind = Kind.act; resource = "tool:mail" }))
            mail_policy.patterns
          ≡ true)
      × ((answer mail_policy.when "{}" ≡ none) ⊎ (answer mail_policy.when "{}" ≡ some (ok true)))
      × (no_context.approval_id ≡ none)))
    × (asks.outcome ≡ require_approval → asks.reason ≡ "approval_required")
unfolding gate_open
require_approval_evaluate_iff_example =
    require_approval_evaluate_iff mailer invoke "tool:mail" "{}" no_context mail_policy refl
      mail_asks

both_ask :
    composite_evaluate
      (require_approval_evaluate mail_policy ∷ [])
      mailer
      invoke
      "tool:mail"
      "{}"
      no_context
    ≡ ok asks
unfolding gate_open most_restrictive
both_ask = refl

composite_evaluate_lem_example :
    AllAtMost mailer invoke "tool:mail" "{}" no_context asks
      (require_approval_evaluate mail_policy ∷ [])
    × ((asks ≡ policy_allowed)
        ⊎ SomeAnswers mailer invoke "tool:mail" "{}" no_context asks
            (require_approval_evaluate mail_policy ∷ []))
composite_evaluate_lem_example =
    composite_evaluate_lem mailer invoke "tool:mail" "{}" no_context asks
      (require_approval_evaluate mail_policy ∷ []) both_ask

abbrev asking : Decision
asking = decided require_approval "approval_required" mailer "tool:mail" invoke (pos 1) 1 "iii" []

abbrev gated : GateResult
gated = record {
  decision = asking;
  approval = some (parked env settings mailer "tool:mail" "{}" asking "iiiiii" (pos 4));
}

abbrev gate_run : Result GateResult × World
gate_run = gate env settings mailer "tool:mail" none start

gate_parks : gate_run ≡ (ok gated, gate_run.1)
unfolding gate_open
gate_parks = refl

gate-Parked_example :
    ((is_require_approval gated.decision.outcome ≡ false)
      × (gated.approval ≡ none)
      × (gate_run.1.approvals ≡ start.approvals))
    ⊎ ((is_require_approval gated.decision.outcome ≡ true)
        × Parked env settings mailer "tool:mail" "{}" gated start gate_run.1)
gate-Parked_example = gate-Parked env settings mailer "tool:mail" none start gate_parks
