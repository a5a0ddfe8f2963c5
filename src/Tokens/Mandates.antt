-- ===== src/Tokens/Mandates.antt =====
-- tokens/mandates.py, MandateService: a person mandates an agent, and the agent gets short tokens.
pub mod Laws
pub mod Revoked
use headofcontext.Prelude.{
  ℕ, String, Bool, true, false, ◌&&◌, not, ◌*◌, Option, none, some, List, [], ◌∷◌, ◌==◌, is_empty,
  length, if◌then◌else◌,
}
use headofcontext.Prelude.Int.{ℤ, pos, negsuc, ltb_ℤ, leb_ℤ, min_ℤ, ◌+ℤ◌, ◌-ℤ◌}
use headofcontext.Core.Errors.{
  Exception, hoc, other, Result, ok, err, raised, raised_with, mandate_denied,
  is_invariant_violation,
}
use headofcontext.Core.Errors
use headofcontext.Core.Refs.{validate_ref}
use headofcontext.Core.Scope.{Scope, is_subset_of}
use headofcontext.Core.Chain.{PrincipalChain, root}
use headofcontext.Core.Events.{EventKind, mandate_created, mandate_revoked, mandate_expired, ◌+++◌}
use headofcontext.Tokens.Mandate.{Mandate, MandateStatus, active, is_active, revocation_id}
use headofcontext.Tokens.MandateStore.{create, get, update, list_for, expire_active}
use headofcontext.Tokens.Service.{
  IssuedToken, TokenSettings, or_span, issue_token, is_revoked, revoke_id,
}
use headofcontext.World.{World, Env, Exec, pure, lift, gets, ◌>>=◌, ◌>>◌, now, uuid4, record_event}

abbrev pub binding_relation : String
binding_relation = "can_act_on_behalf_of"

-- The parameters of `MandateService.__init__`; the engine may be missing.
pub record MandateSettings : Type 0 where
  pub has_engine : Bool
  pub max_days : ℕ
  pub default_max_token_ttl : ℤ

-- `timedelta(days=d)`, in microseconds.
abbrev pub days : ℕ → ℤ
days d = pos (d * 86400000000)

abbrev pub denied : {A : Type 0} → String → Result A
denied reason = raised_with mandate_denied reason

-- `except InvariantViolation` around the two references.
abbrev pub or_invalid_reference : Result (Unit {0}) → Result (Unit {0})
or_invalid_reference (ok u) = ok u
or_invalid_reference (err other) = err other
or_invalid_reference (err (hoc e)) =
    if is_invariant_violation e.class then denied "invalid_reference" else err (hoc e)

abbrev pub deny_unless : Bool → String → Result (Unit {0})
deny_unless true reason = ok tt
deny_unless false reason = denied reason

abbrev pub validate_both : String → String → Result (Unit {0})
validate_both subject agent =
    or_invalid_reference
      (Errors.◌>>◌ (validate_ref subject "user") (Errors.◌>>◌ (validate_ref agent "agent") (ok tt)))

-- `_require_binding` on the engine's answer.
abbrev pub binding_answer : Result Bool → Result (Unit {0})
binding_answer (ok true) = ok tt
binding_answer (ok false) = denied "not_related"
binding_answer (err (hoc e)) = err (hoc e)
binding_answer (err other) = denied "engine_unavailable"

-- `reason or d`, and `reason or None`.
abbrev pub or_reason : String → String → String
or_reason reason d = if reason == "" then d else reason

abbrev pub or_none : String → Option String
or_none reason = if reason == "" then none else some reason

abbrev pub with_revoked : ℤ → Option String → Mandate → Mandate
with_revoked at reason m = record m {
  status = MandateStatus.revoked;
  revoked_at = some at;
  revocation_reason = reason;
}

abbrev pub with_expired : Mandate → Mandate
with_expired m = record m { status = MandateStatus.expired }

-- `except HocError` around `is_revoked`.
abbrev pub or_store_unavailable : Result Bool → Result Bool
or_store_unavailable (ok b) = ok b
or_store_unavailable (err other) = err other
or_store_unavailable (err (hoc e)) = denied "revocation_store_unavailable"

-- What `issue` asks of the mandate, in order.
unfoldable pub check_mandate : Mandate → String → Scope → Result (Unit {0})
check_mandate m caller scope = elim m.status [
  | MandateStatus.revoked ↦ denied "mandate_revoked"
  | MandateStatus.expired ↦ denied "mandate_expired"
  | active ↦
      if not (caller == m.agent)
      then denied "mandate_wrong_agent"
      else if not (is_subset_of scope m.scope)
      then denied "scope_escalation"
      else ok tt
]

module _ {Args : Type 0} (env : Env Args) (tokens : TokenSettings)
    (settings : MandateSettings) where
  -- `_event`, recorded.
  unfoldable pub event : EventKind → Mandate → String → String → Exec (Unit {0})
  event kind m outcome reason = do
    timestamp ← now env
    event_id ← uuid4 env
    record_event env (record {
      kind = kind;
      timestamp = timestamp;
      subject = m.subject;
      actor = m.agent;
      delegation_depth = 0;
      action = "mandate";
      resource = "mandate:" +++ m.mandate_id;
      outcome = outcome;
      reason = or_reason reason outcome;
      engine_latency_ms = 0;
      token_fingerprint = none;
      args_hash = none;
      decision_id = none;
      event_id = event_id;
    })

  unfoldable pub require_binding : String → String → Exec (Unit {0})
  require_binding subject agent w = (
    if settings.has_engine
        then binding_answer (env.check w subject binding_relation agent)
        else denied "engine_unavailable",
    w,
  )

  unfoldable pub create_mandate : String → String → Scope → ℤ → String → Option ℤ → Exec Mandate
  create_mandate subject agent scope expires_at created_by max_token_ttl = do
    lift (validate_both subject agent)
    lift (deny_unless (created_by == subject) "not_subject")
    at ← now env
    lift (deny_unless (not (leb_ℤ expires_at at)) "mandate_expired")
    lift (deny_unless (not (ltb_ℤ (at +ℤ days settings.max_days) expires_at)) "mandate_too_long")
    lift (deny_unless (not (is_empty scope.capabilities)) "scope_empty")
    let ttl = or_span max_token_ttl settings.default_max_token_ttl
    lift (deny_unless (not (leb_ℤ ttl (pos 0))) "invalid_ttl")
    require_binding subject agent
    mandate_id ← uuid4 env
    let m : Mandate = record {
      mandate_id = mandate_id;
      subject = subject;
      agent = agent;
      scope = scope;
      created_at = at;
      expires_at = expires_at;
      max_token_ttl = ttl;
      created_by = created_by;
      status = active;
      revoked_at = none;
      revocation_reason = none;
    }
    create m
    event mandate_created m "created" "created"
    pure m

  -- Store and journal an ACTIVE mandate whose date has passed, or whose revocation id is revoked.
  unfoldable pub settle : EventKind → Mandate → String → String → Exec Mandate
  settle kind m outcome reason = do update m; event kind m outcome reason; pure m

  -- `_fresh` of an ACTIVE mandate: the date, then the revocation id.
  unfoldable pub fresh_active : Mandate → Exec Mandate
  fresh_active m = do
    at ← now env
    if leb_ℤ m.expires_at at
        then settle mandate_expired (with_expired m) "expired" "expired"
        else do
          answer ← gets (is_revoked env tokens (revocation_id m ∷ []))
          id_revoked ← lift (or_store_unavailable answer)
          if id_revoked
              then settle mandate_revoked (with_revoked at (some "revocation_id_revoked") m)
                  "revoked" "revocation_id_revoked"
              else pure m

  unfoldable pub fresh : Option Mandate → Exec (Option Mandate)
  fresh none = pure none
  fresh (some m) =
      if is_active m.status then (fresh_active m >>= λ r. pure (some r)) else pure (some m)

  unfoldable pub get_fresh : String → Exec (Option Mandate)
  get_fresh mandate_id = do found ← get mandate_id; fresh found

  -- `[m for m in (self._fresh(m) ...) if m]`.
  unfoldable pub fresh_all : List Mandate → Exec (List Mandate)
  fresh_all [] = pure []
  fresh_all (m ∷ rest) = do
    first ← fresh (some m)
    later ← fresh_all rest
    pure (elim first [ none ↦ later | some r ↦ r ∷ later ])

  unfoldable pub list_fresh : String → Exec (List Mandate)
  list_fresh subject = do rows ← list_for subject; fresh_all rows

  abbrev pub known : Option Mandate → Result Mandate
  known none = denied "mandate_unknown"
  known (some m) = ok m

  -- The id is revoked before the row is written.
  unfoldable pub revoke : String → String → String → Exec Mandate
  revoke mandate_id by reason = do
    found ← get mandate_id
    m ← lift (known found)
    lift (deny_unless (by == m.subject) "not_subject")
    at ← now env
    revoke_id env tokens (revocation_id m) (or_reason reason "mandate revoked")
    let revoked : Mandate = with_revoked at (or_none reason) m
    update revoked
    event mandate_revoked revoked "revoked" reason
    pure revoked

  unfoldable pub record_expired : List Mandate → Exec (Unit {0})
  record_expired [] = pure tt
  record_expired (m ∷ rest) = do event mandate_expired m "expired" "expired"; record_expired rest

  unfoldable pub expire : Exec ℕ
  expire = do at ← now env; over ← expire_active at; record_expired over; pure (length over)

  -- `min(wanted, max_token_ttl, expires_at - now)`.
  abbrev pub effective : Option ℤ → Mandate → ℤ → ℤ
  effective ttl m at =
      min_ℤ (min_ℤ (or_span ttl m.max_token_ttl) m.max_token_ttl) (m.expires_at -ℤ at)

  unfoldable pub issue : String → String → Scope → Option ℤ → Exec IssuedToken
  issue mandate_id caller scope ttl = do
    found ← get_fresh mandate_id
    m ← lift (known found)
    lift (check_mandate m caller scope)
    require_binding m.subject m.agent
    at ← now env
    chain ← lift (root m.subject m.agent scope)
    issue_token env tokens chain (some (effective ttl m at)) (some m.mandate_id)
