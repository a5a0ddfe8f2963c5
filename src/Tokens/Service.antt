-- ===== src/Tokens/Service.antt =====
-- tokens/biscuit/service.py: issuing a root token, and the revocation ids. What the biscuit library
-- signs is a parameter.
use headofcontext.Prelude.{
  zero, suc, String, Bool, Option, none, some, List, [], ◌∷◌, ◌++◌, any, insert, contains, nat_eq,
  ◌==◌, if◌then◌else◌,
}
use headofcontext.Prelude.Int.{ℤ, pos, negsuc, ◌+ℤ◌}
use headofcontext.Core.Errors.{Exception, hoc, other, Result, ok, err, raised, token_invalid}
use headofcontext.Core.Scope.{Scope}
use headofcontext.Core.Chain.{PrincipalChain, depth}
use headofcontext.Core.Events.{EventKind, token_issued, token_revoked, ◌+++◌}
use headofcontext.Tokens.Mandate.{mandate_revocation_id}
use headofcontext.World.{World, Env, Exec, pure, lift, ◌>>=◌, ◌>>◌, now, uuid4, record_event}

pub record IssuedToken : Type 0 where
  pub token : String
  pub chain : PrincipalChain
  pub expires_at : ℤ
  pub revocation_ids : List String
  pub mandate_id : Option String

-- `seal` builds and signs an authority block of subject, actor, scope, issue and expiry times and
-- mandate id; it gives the text of the token and the ids of its blocks, or raises. `outage` is
-- what the revocation store raises in place of an answer, if it does, and `write_failure` what it
-- raises in place of taking an id.
pub record TokenSettings : Type 0 where
  pub ttl : ℤ
  pub seal : String → String → Scope → ℤ → ℤ → Option String → Result (String × List String)
  pub fingerprint : String → String
  pub isoformat : ℤ → String
  pub outage : World → Option Exception
  pub write_failure : World → String → Option Exception

-- `span or default`: a span of zero counts as missing.
abbrev pub or_span : Option ℤ → ℤ → ℤ
or_span none d = d
or_span (some (pos zero)) d = d
or_span (some (pos (suc n))) d = pos (suc n)
or_span (some (negsuc n)) d = negsuc n

-- `tuple(ids) + (mandate id,)` if there is one.
abbrev pub with_mandate_id : List String → Option String → List String
with_mandate_id ids none = ids
with_mandate_id ids (some m) = ids ++ mandate_revocation_id m ∷ []

abbrev pub mandate_note : Option String → String
mandate_note none = ""
mandate_note (some m) = if m == "" then "" else " mandate=" +++ m

module _ {Args : Type 0} (env : Env Args) (tokens : TokenSettings) where
  -- `_token_event`, recorded.
  unfoldable pub token_event : EventKind → IssuedToken → String → Exec (Unit {0})
  token_event kind issued outcome = do
    timestamp ← now env
    event_id ← uuid4 env
    record_event env (record {
      kind = kind;
      timestamp = timestamp;
      subject = issued.chain.subject;
      actor = issued.chain.actor;
      delegation_depth = depth issued.chain;
      action = "token:" +++ outcome;
      resource = issued.chain.actor;
      outcome = outcome;
      reason =
          "expires_at=" +++ tokens.isoformat issued.expires_at +++ mandate_note issued.mandate_id;
      engine_latency_ms = 0;
      token_fingerprint = some (tokens.fingerprint issued.token);
      args_hash = none;
      decision_id = none;
      event_id = event_id;
    })

  unfoldable pub issue_token : PrincipalChain → Option ℤ → Option String → Exec IssuedToken
  issue_token chain ttl mandate_id = do
    lift (if nat_eq (depth chain) 0 then ok tt else raised token_invalid)
    issued_at ← now env
    let expires_at = issued_at +ℤ or_span ttl tokens.ttl
    (token, ids) ←
        lift (tokens.seal chain.subject chain.actor chain.scope issued_at expires_at mandate_id)
    let issued : IssuedToken = record {
      token = token;
      chain = chain;
      expires_at = expires_at;
      revocation_ids = with_mandate_id ids mandate_id;
      mandate_id = mandate_id;
    }
    token_event token_issued issued "issued"
    pure issued

  -- `RevocationStore.is_revoked` of the rows, under the service's two `except` clauses. It changes
  -- nothing, and is read with `gets`.
  abbrev pub is_revoked : List String → World → Result Bool
  is_revoked ids w = elim (tokens.outage w) [
    | none ↦ ok (any (λ i. contains i w.revoked) ids)
    | some (hoc e) ↦ err (hoc e)
    | some other ↦ raised token_invalid
  ]

  -- `RevocationStore.revoke`.
  unfoldable pub take_id : String → String → ℤ → Exec (Unit {0})
  take_id revocation_id reason at w = elim (tokens.write_failure w revocation_id) [
    | none ↦ (ok tt, record w { revoked = insert revocation_id (reason, at) w.revoked })
    | some e ↦ (err e, w)
  ]

  -- The store's `revoke`, then the event.
  unfoldable pub revoke_id : String → String → Exec (Unit {0})
  revoke_id revocation_id reason = do
    at ← now env
    take_id revocation_id reason at
    event_id ← uuid4 env
    record_event env (record {
      kind = token_revoked;
      timestamp = at;
      subject = "-";
      actor = "-";
      delegation_depth = 0;
      action = "token:revoke";
      resource = "revocation:" +++ revocation_id;
      outcome = "revoked";
      reason = reason;
      engine_latency_ms = 0;
      token_fingerprint = none;
      args_hash = none;
      decision_id = none;
      event_id = event_id;
    })
