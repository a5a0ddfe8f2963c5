-- ===== src/Actions/Gate/Once.antt =====
-- A redeemed approval is spent for good, whatever calls come after.
use headofcontext.Prelude.{◌≡◌, refl, sym, subst, String, Bool, Option}
use headofcontext.Prelude.Int.{ℤ}
use headofcontext.Core.Errors.{ok}
use headofcontext.Core.Chain.{PrincipalChain}
use headofcontext.Core.Decision.{Decision, allow}
use headofcontext.Actions.Store.{expire_pending}
use headofcontext.Actions.Store.Laws.{
  StoreStep, StoreSteps, here, next, swept, IsSpent, steps-IsSpent, IsSpent-approved,
}
use headofcontext.Actions.Store.Steps.{IsKeyed, steps-IsKeyed, steps_trans}
use headofcontext.Actions.Gate.{Settings, gate, resolve, redeem, pending_for}
use headofcontext.Actions.Gate.Redeem.{redeem_allow}
use headofcontext.Actions.Gate.Stepwise.{
  Stepwise-gate, Stepwise-resolve_call, Stepwise-redeem, Stepwise-pending_for,
}
use headofcontext.World.{World, Env}

module _ (Args : Type 0) where
  -- What the program may do to the approvals: a call of the gate, whoever makes it, with any engine,
  -- sink and clock; the sweep; or one store call of a gate's call that is under way in another task.
  pub data GateCall (w w' : World) : Type 0 where
    gated :
        (env : Env Args) (settings : Settings) (chain : PrincipalChain) (tool : String)
        (args : Option Args)
        → w' ≡ (gate env settings chain tool args w).1
        → GateCall w w'
    resolved :
        (env : Env Args) (settings : Settings) (request_id approver : String) (is_approved : Bool)
        (reason : String)
        → w' ≡ (resolve env settings request_id approver is_approved reason w).1
        → GateCall w w'
    redeemed_call :
        (env : Env Args) (settings : Settings) (chain : PrincipalChain) (request_id : String)
        (args : Option Args) (tool : Option String)
        → w' ≡ (redeem env settings chain request_id args tool w).1
        → GateCall w w'
    listed :
        (env : Env Args) (settings : Settings) (user : String)
        → w' ≡ (pending_for env settings user w).1
        → GateCall w w'
    swept_all : (now : ℤ) → w' ≡ (expire_pending now w).1 → GateCall w w'
    interleaved : StoreStep w w' → GateCall w w'

  pub data GateCalls (w : World) : World → Type 0 where
    none_more : GateCalls w w
    then_call : {u v : World} → GateCalls w u → GateCall u v → GateCalls w v

  call_steps : {w w' : World} → GateCall w w' → StoreSteps w w'
  call_steps {w} (gated env settings chain tool args e) =
      subst (StoreSteps w) (sym e) ((Stepwise-gate env settings chain tool args).at w)
  call_steps {w} (resolved env settings request_id approver is_approved reason e) =
      subst (StoreSteps w) (sym e)
        ((Stepwise-resolve_call env settings request_id approver is_approved reason).at w)
  call_steps {w} (redeemed_call env settings chain request_id args tool e) =
      subst (StoreSteps w) (sym e) ((Stepwise-redeem env settings chain request_id args tool).at w)
  call_steps {w} (listed env settings user e) =
      subst (StoreSteps w) (sym e) ((Stepwise-pending_for env settings user).at w)
  call_steps (swept_all now e) = next here (swept now e)
  call_steps (interleaved step) = next here step

  calls_steps : {w w' : World} → GateCalls w w' → StoreSteps w w'
  calls_steps none_more = here
  calls_steps (then_call calls call) = steps_trans (calls_steps calls) (call_steps call)

  -- A request whose status is REJECTED, EXPIRED or CONSUMED keeps a final status, whatever calls of
  -- the gate, of whoever, with whatever engine, sink and clock, and whatever sweeps come after, the
  -- single store calls of such calls in other tasks included. An update by other code is no such
  -- call.
  pub calls-IsSpent :
      {w v : World} (request_id : String)
      → GateCalls w v
      → IsSpent request_id w.approvals
      → IsSpent request_id v.approvals
  calls-IsSpent request_id calls = steps-IsSpent request_id (calls_steps calls)

module _ {Args : Type 0} (env : Env Args) (settings : Settings) where
  -- In a store whose rows stand under their own ids, once `redeem` has answered ALLOW for a request,
  -- no later `redeem` of that request answers ALLOW, whoever calls it with whatever arguments, and
  -- whatever calls of the gate and sweeps come in between, the single store calls of gate calls in
  -- other tasks included. An update by other code is no such call.
  pub redeem_once :
      (chain chain' : PrincipalChain) (request_id : String) (args args' : Option Args)
      (tool tool' : Option String) (w v : World) {d d' : Decision}
      → IsKeyed w
      → (redeem env settings chain request_id args tool w).0 ≡ ok d
      → d.outcome ≡ allow
      → GateCalls Args (redeem env settings chain request_id args tool w).1 v
      → (redeem env settings chain' request_id args' tool' v).0 ≡ ok d'
      → ¬ (d'.outcome ≡ allow)
  redeem_once chain chain' request_id args args' tool tool' w v {d} {d'} keyed h a calls h' a' =
      let steps = calls_steps Args calls in
      let (r, found, answers, gone) =
        redeem_allow env settings chain request_id args tool w {d = d} keyed h a in
      let keyed' : IsKeyed v =
        steps-IsKeyed steps
          (steps-IsKeyed ((Stepwise-redeem env settings chain request_id args tool).at w) keyed) in
      let still =
        steps-IsSpent request_id steps (record { request = _; found = gone; final = refl }) in
      let (r', found', answers', gone') =
        redeem_allow env settings chain' request_id args' tool' v {d = d'} keyed' h' a' in
      absurd (IsSpent-approved request_id r' v.approvals still found' answers'.status)
