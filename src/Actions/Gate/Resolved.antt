-- ===== src/Actions/Gate/Resolved.antt =====
-- `ActionGate.resolve`, from actions/gate.py: the check of the approver, then the resolution.
use headofcontext.Prelude.{
  ◌≡◌, refl, sym, ◌∙◌, ap, subst, String, Bool, true, some, ◌==◌, lookup, inl, inr, Option-cases,
  arith, if◌then◌else◌,
}
use headofcontext.Core.Errors.{Result, ok, Result-cases}
use headofcontext.Actions.Request.{ApprovalRequest}
use headofcontext.Actions.Store.{get}
use headofcontext.Actions.Resolve.{authorize_approver, get_request, resolve_request}
use headofcontext.Actions.Resolve.Laws.{Resolved, resolve_request-Resolved, authorize_approver-ok}
use headofcontext.Actions.Gate.{Settings, resolve}
use headofcontext.World.{World, Env, ticked, ◌>>=◌}

module _ {Args : Type 0} (env : Env Args) (settings : Settings) where
  resolve_runs :
      (r : ApprovalRequest) (request_id approver : String) (is_approved : Bool) (reason : String)
      (w : World)
      → lookup request_id w.approvals ≡ some r
      → authorize_approver env (env.clock w.tick) r approver settings.allow_self_approval (ticked w)
        ≡ (ok tt, ticked w)
      → resolve env settings request_id approver is_approved reason w
        ≡ resolve_request env
            (env.clock w.tick)
            request_id
            approver
            is_approved
            reason
            settings.allow_self_approval
            (ticked w)
  unfolding resolve get_request get ◌>>=◌
  resolve_runs r request_id approver is_approved reason w found step = rw (found, step) refl

  resolve_after :
      (r : ApprovalRequest) (request_id approver : String) (is_approved : Bool) (reason : String)
      (w : World) {x : ApprovalRequest}
      → lookup request_id w.approvals ≡ some r
      → authorize_approver env (env.clock w.tick) r approver settings.allow_self_approval (ticked w)
        ≡ (ok tt, ticked w)
      → (resolve env settings request_id approver is_approved reason w).0 ≡ ok x
      → Resolved env
          (env.clock w.tick)
          request_id
          approver
          is_approved
          reason
          settings.allow_self_approval
          w
          (resolve env settings request_id approver is_approved reason w).1
          x
          r
  resolve_after r request_id approver is_approved reason w {x} found step h =
      let run = resolve_runs r request_id approver is_approved reason w found step in
      let (r', done) =
        resolve_request-Resolved env (env.clock w.tick) request_id approver is_approved reason
          settings.allow_self_approval (ticked w) {x = x}
          (sym (ap (λ (p : Result ApprovalRequest × World). p.0) run) ∙ h) in
      let same : r' ≡ r = grind (arith, done.found, found) in
      let done' =
        subst
          (Resolved env (env.clock w.tick) request_id approver is_approved reason
            settings.allow_self_approval (ticked w)
            (resolve_request env (env.clock w.tick) request_id approver is_approved reason
              settings.allow_self_approval (ticked w)).1
            x)
          same done in
      rw run (record {
        found = done'.found;
        waiting = done'.waiting;
        in_time = done'.in_time;
        not_own = done'.not_own;
        answer = done'.answer;
        written = done'.written;
      })

  -- `resolve` returns only if the request stood PENDING and in time under the id, and the approver was
  -- the engine's approver for its tool, or its own subject where self-approval is on. It returns
  -- the resolved row, and writes that row and no other.
  pub resolve_permitted :
      (request_id approver : String) (is_approved : Bool) (reason : String) (w : World)
      {x : ApprovalRequest}
      → (resolve env settings request_id approver is_approved reason w).0 ≡ ok x
      → (r : ApprovalRequest) × Resolved env
          (env.clock w.tick)
          request_id
          approver
          is_approved
          reason
          settings.allow_self_approval
          w
          (resolve env settings request_id approver is_approved reason w).1
          x
          r
        × ((if approver == r.subject
              then ok settings.allow_self_approval
              else env.check (ticked w) approver "approver" r.tool)
            ≡ ok true)
  unfolding resolve get_request get ◌>>=◌
  resolve_permitted request_id approver is_approved reason w {x} h =
      elim (Option-cases (lookup request_id w.approvals)) [
        | inl missing ↦ absurd (ground arith)
        | inr (r, found) ↦
            elim (Result-cases
              (authorize_approver env (env.clock w.tick) r approver settings.allow_self_approval
                (ticked w)).0) [
                  | inr (e, bad) ↦ absurd (ground arith)
                  | inl (u, good) ↦
                      let (moved, permitted) =
                        authorize_approver-ok env (env.clock w.tick) r approver
                          settings.allow_self_approval (ticked w) good in
                      let step : authorize_approver env (env.clock w.tick) r approver
                            settings.allow_self_approval (ticked w)
                          ≡ (ok tt, ticked w) =
                        λ i. (good i, moved i) in
                      (
                        r,
                        resolve_after r request_id approver is_approved reason w {x = x} found step
                            h,
                        permitted,
                      )
                ]
      ]
