-- ===== src/Tokens/Mandates/Revoked.antt =====
-- `MandateService.revoke`, from tokens/mandates.py, and `issue` after it.
use headofcontext.Prelude.{
  ◌≡◌, ◌⊎◌, refl, sym, ◌∙◌, ap, ◌+◌, String, true, false, Option, none, some, [], ◌∷◌, Option-cases,
  arith, lookup, insert, contains, lookup-insert, eq_iff, eq_refl, if◌then◌else◌, inl, inr, Dict,
}
use headofcontext.Prelude.Int.{ℤ}
use headofcontext.Core.Errors.{Exception, ok, err}
use headofcontext.Core.Scope.{Scope}
use headofcontext.Tokens.Mandate.{Mandate, revocation_id, mandate_revocation_id}
use headofcontext.Tokens.MandateStore.{get, update}
use headofcontext.Tokens.Service.{IssuedToken, TokenSettings, revoke_id, take_id, is_revoked}
use headofcontext.Tokens.Mandates.{
  MandateSettings, event, revoke, issue, or_reason, or_none, with_revoked,
}
use headofcontext.Tokens.Mandates.Laws.{issue-Issued}
use headofcontext.World.{World, Env, Exec, pure, lift, ◌>>=◌, ◌>>◌, now, uuid4, record_event}

module _ {Args : Type 0} (env : Env Args) (tokens : TokenSettings)
    (settings : MandateSettings) where
  -- The state in which `revoke` asks the revocation store to take the id.
  abbrev pub at_write : World → World
  at_write w = record w { tick = w.tick + 1 + 1 }

  revoke_raises :
      (mandate_id reason : String) (m : Mandate) (w : World) {e : Exception}
      → lookup mandate_id w.mandates ≡ some m
      → tokens.write_failure (at_write w) (revocation_id m) ≡ some e
      → (revoke env tokens settings mandate_id m.subject reason w).0 ≡ err e
  unfolding revoke revoke_id take_id get event update record_event ◌>>=◌
  revoke_raises mandate_id reason m w found fails = ground (arith, eq_refl m.subject)

  revoke_writes :
      (mandate_id reason : String) (m : Mandate) (w : World)
      → lookup mandate_id w.mandates ≡ some m
      → tokens.write_failure (at_write w) (revocation_id m) ≡ none
      → (revoke env tokens settings mandate_id m.subject reason w).1.revoked
        ≡ insert
            (revocation_id m)
            (or_reason reason "mandate revoked", env.clock (w.tick + 1))
            w.revoked
  unfolding revoke revoke_id take_id get event update record_event ◌>>=◌
  revoke_writes mandate_id reason m w found works = ground (arith, eq_refl m.subject)

  revoke_rows :
      (mandate_id reason : String) (m : Mandate) (w : World)
      → lookup mandate_id w.mandates ≡ some m
      → (r : Mandate) × (r.mandate_id ≡ m.mandate_id)
        × (((revoke env tokens settings mandate_id m.subject reason w).1.mandates ≡ w.mandates)
            ⊎ ((revoke env tokens settings mandate_id m.subject reason w).1.mandates
                ≡ insert m.mandate_id r w.mandates))
  unfolding revoke revoke_id take_id get event update record_event ◌>>=◌
  revoke_rows mandate_id reason m w found =
      (with_revoked (env.clock w.tick) (or_none reason) m, refl, ground (arith, eq_refl m.subject))

  -- The row under this id is the same mandate after the call, if its status changed.
  same_mandate :
      (k : String) (m r x : Mandate) (rows rows' : Dict Mandate)
      → lookup k rows ≡ some m
      → m.mandate_id ≡ k
      → r.mandate_id ≡ m.mandate_id
      → (rows' ≡ rows) ⊎ (rows' ≡ insert m.mandate_id r rows)
      → lookup k rows' ≡ some x
      → x.mandate_id ≡ m.mandate_id
  same_mandate k m r x rows rows' found key id (inl e) at =
      let same : m ≡ x = grind (arith, found, sym (ap (lookup k) e) ∙ at) in
      ap (λ (y : Mandate). y.mandate_id) (sym same)
  same_mandate k m r x rows rows' found key id (inr e) at =
      let here : lookup k (insert m.mandate_id r rows) ≡ some r =
        lookup-insert m.mandate_id k r rows
        ∙ ap (λ b. if b then some r else lookup k rows) ((eq_iff m.mandate_id k).1 key) in
      let same : r ≡ x = grind (arith, here, sym (ap (lookup k) e) ∙ at) in
      ap (λ (y : Mandate). y.mandate_id) (sym same) ∙ id

  revoked_listed :
      (k mandate_id : String) (m : Mandate) (reason : String) (w v : World)
      → mandate_revocation_id k ≡ revocation_id m
      → v.revoked ≡ (revoke env tokens settings mandate_id m.subject reason w).1.revoked
      → (revoke env tokens settings mandate_id m.subject reason w).1.revoked
        ≡ insert
            (revocation_id m)
            (or_reason reason "mandate revoked", env.clock (w.tick + 1))
            w.revoked
      → contains (mandate_revocation_id k) v.revoked ≡ true
  revoked_listed k mandate_id m reason w v same ids writes =
      let held : lookup (revocation_id m) (
            insert (revocation_id m) (or_reason reason "mandate revoked", env.clock (w.tick + 1))
              w.revoked)
          ≡ some (or_reason reason "mandate revoked", env.clock (w.tick + 1)) =
        lookup-insert (revocation_id m) (revocation_id m) _ w.revoked
        ∙ ap
            (λ b.
              if b
              then some (or_reason reason "mandate revoked", env.clock (w.tick + 1))
              else lookup (revocation_id m) w.revoked)
            (eq_refl (revocation_id m)) in
      rw (same, ids, writes) (rw (held, contains) refl)

  not_answered :
      (env' : Env Args) (tokens' : TokenSettings) (x : Mandate) (v : World)
      → contains (revocation_id x) v.revoked ≡ true
      → ¬ (is_revoked env' tokens' (revocation_id x ∷ []) (headofcontext.World.ticked v) ≡ ok false)
  not_answered env' tokens' x v held h = ground (arith, held, h)

  -- The subject's `revoke` of a mandate that is stored under its own id either raises what the
  -- revocation store's write raised, or, whether or not it returns, stops `issue`: no token under
  -- that mandate, with any engine, clock or token service, in any state that has the rows and the
  -- revoked ids which `revoke` left.
  pub revoke_stops_issue :
      (env' : Env Args) (tokens' : TokenSettings) (mandate_id reason caller : String)
      (scope : Scope) (ttl : Option ℤ) (m : Mandate) (w v : World) {t : IssuedToken}
      → lookup mandate_id w.mandates ≡ some m
      → m.mandate_id ≡ mandate_id
      → v.mandates ≡ (revoke env tokens settings mandate_id m.subject reason w).1.mandates
      → v.revoked ≡ (revoke env tokens settings mandate_id m.subject reason w).1.revoked
      → ((e : Exception) × (tokens.write_failure (at_write w) (revocation_id m) ≡ some e)
          × ((revoke env tokens settings mandate_id m.subject reason w).0 ≡ err e))
        ⊎ (¬ ((issue env' tokens' settings mandate_id caller scope ttl v).0 ≡ ok t))
  revoke_stops_issue env' tokens' mandate_id reason caller scope ttl m w v {t} found key rows ids =
      elim (Option-cases (tokens.write_failure (at_write w) (revocation_id m))) [
        | inr (e, fails) ↦ inl (e, fails, revoke_raises mandate_id reason m w found fails)
        | inl works ↦ inr (λ h.
            let (x, issued) =
              issue-Issued env' tokens' settings mandate_id caller scope ttl v {t = t} h in
            let (r, id, change) = revoke_rows mandate_id reason m w found in
            let same =
              same_mandate mandate_id m r x _ _ found key id change
                (sym (ap (lookup mandate_id) rows) ∙ issued.found) in
            let listed =
              revoked_listed x.mandate_id mandate_id m reason w v (ap mandate_revocation_id same)
                ids (revoke_writes mandate_id reason m w found works) in
            not_answered env' tokens' x v listed issued.not_revoked)
      ]
