-- ===== src/Tokens/Mandates/Laws.antt =====
-- What an issued token owes to its mandate (tokens/mandates.py, `issue`).
use headofcontext.Prelude.{
  zero, suc, ◌≡◌, refl, ◌∙◌, ap, subst, ◌+◌, String, true, false, inl, inr, Option, none, some, [],
  ◌∷◌, arith, lookup, eq_iff, Option-cases, Bool-cases,
}
use headofcontext.Prelude.Int.{
  ℤ, pos, negsuc, ◌+ℤ◌, ◌-ℤ◌, ◌≤ℤ◌, ◌<ℤ◌, leb_ℤ, min_ℤ, +ℤ_parts, -ℤ_parts,
}
use headofcontext.Core.Errors.{ok, Result-cases}
use headofcontext.Core.Scope.{Scope, is_subset_of}
use headofcontext.Core.Chain.{PrincipalChain, root, make, depth}
use headofcontext.Core.Events.{EventKind, mandate_expired, mandate_revoked}
use headofcontext.Tokens.Mandate.{Mandate, active, is_active, revocation_id}
use headofcontext.Tokens.MandateStore.{get}
use headofcontext.Tokens.Service.{IssuedToken, TokenSettings, or_span, issue_token, is_revoked}
use headofcontext.Tokens.Mandates.{
  MandateSettings, binding_relation, check_mandate, require_binding, settle, fresh_active, fresh,
  get_fresh, effective, issue, with_expired, with_revoked,
}
use headofcontext.World.{World, Env, Exec, ticked, lift, ◌>>=◌, ◌>>◌, now}

module _ {Args : Type 0} (env : Env Args) (tokens : TokenSettings)
    (settings : MandateSettings) where
  settle-ok :
      (kind : EventKind) (m m' : Mandate) (outcome reason : String) (w : World)
      → (settle env tokens settings kind m outcome reason w).0 ≡ ok m'
      → m ≡ m'
  unfolding settle ◌>>=◌
  settle-ok kind m m' outcome reason w h = ground arith

  fresh_active-active :
      (m m' : Mandate) (w : World)
      → (fresh_active env tokens settings m w).0 ≡ ok m'
      → m'.status ≡ active
      → (m ≡ m')
        × (env.clock w.tick <ℤ m.expires_at)
        × (is_revoked env tokens (revocation_id m ∷ []) (ticked w) ≡ ok false)
        × ((fresh_active env tokens settings m w).1 ≡ ticked w)
  unfolding fresh_active ◌>>=◌
  fresh_active-active m m' w h a = elim (Bool-cases (leb_ℤ m.expires_at (env.clock w.tick))) [
    | inl over ↦
        let same =
          settle-ok mandate_expired (with_expired m) m' "expired" "expired" (ticked w)
            (ground arith) in
        absurd (ground arith)
    | inr in_date ↦ elim (Result-cases (is_revoked env tokens (revocation_id m ∷ []) (ticked w))) [
      | inr (e, down) ↦ absurd (ground arith)
      | inl (true, held) ↦
          let same =
            settle-ok mandate_revoked
              (with_revoked (env.clock w.tick) (some "revocation_id_revoked") m) m' "revoked"
              "revocation_id_revoked" (ticked w) (ground arith) in
          absurd (ground arith)
      | inl (false, unrevoked) ↦ (ground arith, ground arith, unrevoked, ground arith)
    ]
  ]

  check_mandate-ok :
      (m : Mandate) (caller : String) (scope : Scope)
      → check_mandate m caller scope ≡ ok tt
      → (m.status ≡ active) × (caller ≡ m.agent) × (is_subset_of scope m.scope ≡ true)
  unfolding check_mandate
  check_mandate-ok m caller scope h =
      (ground arith, ground (arith, eq_iff caller m.agent), ground arith)

  issue_token-ok :
      (chain : PrincipalChain) (ttl : Option ℤ) (mandate_id : Option String) (w : World)
      {t : IssuedToken}
      → (issue_token env tokens chain ttl mandate_id w).0 ≡ ok t
      → (t.chain ≡ chain)
        × (t.mandate_id ≡ mandate_id)
        × (depth chain ≡ 0)
        × (t.expires_at ≡ env.clock w.tick +ℤ or_span ttl tokens.ttl)
  unfolding issue_token ◌>>=◌
  issue_token-ok chain ttl mandate_id w h = (ground arith, ground arith, ground arith, ground arith)

  -- A mandate under which a token was just issued, and what the token took from it.
  pub record Issued (w : World) (mandate_id caller : String) (scope : Scope) (ttl : Option ℤ)
      (t : IssuedToken) (m : Mandate) : Type 0 where
    pub found : lookup mandate_id w.mandates ≡ some m
    pub stays_active : m.status ≡ active
    pub in_date : env.clock w.tick <ℤ m.expires_at
    pub not_revoked : is_revoked env tokens (revocation_id m ∷ []) (ticked w) ≡ ok false
    pub holder : caller ≡ m.agent
    pub within : is_subset_of scope m.scope ≡ true
    pub bound : (env.check (ticked w) m.subject binding_relation m.agent) ≡ ok true
    pub subject : t.chain.subject ≡ m.subject
    pub actor : t.chain.actor ≡ m.agent
    pub scoped : t.chain.scope ≡ scope
    pub undelegated : depth t.chain ≡ 0
    pub under : t.mandate_id ≡ some m.mandate_id
    pub expiry :
        t.expires_at
        ≡ env.clock (w.tick + 1 + 1)
          +ℤ or_span
              (some (effective env tokens settings ttl m (env.clock (w.tick + 1))))
              tokens.ttl

  -- The rest of `issue` after the lookup gave this mandate.
  unfoldable issue_under : Mandate → String → Scope → Option ℤ → Exec IssuedToken
  issue_under m caller scope ttl = do
    lift (check_mandate m caller scope)
    require_binding env tokens settings m.subject m.agent
    at ← now env
    chain ← lift (root m.subject m.agent scope)
    issue_token env tokens chain (some (effective env tokens settings ttl m at)) (some m.mandate_id)

  -- The lookup gave the row as it stands, without a change, or no ACTIVE mandate.
  get_fresh-active :
      (mandate_id : String) (m : Mandate) (w : World)
      → (get_fresh env tokens settings mandate_id w).0 ≡ ok (some m)
      → m.status ≡ active
      → (lookup mandate_id w.mandates ≡ some m)
        × (env.clock w.tick <ℤ m.expires_at)
        × (is_revoked env tokens (revocation_id m ∷ []) (ticked w) ≡ ok false)
        × ((get_fresh env tokens settings mandate_id w).1 ≡ ticked w)
  unfolding get_fresh get fresh ◌>>=◌
  get_fresh-active mandate_id m w h a = elim (Option-cases (lookup mandate_id w.mandates)) [
    | inl missing ↦ absurd (ground arith)
    | inr (row, found) ↦ elim (Bool-cases (is_active row.status)) [
      | inr settled ↦ absurd (ground arith)
      | inl live ↦ elim (Result-cases (fresh_active env tokens settings row w).0) [
        | inr (e, bad) ↦ absurd (ground arith)
        | inl (m', good) ↦
            let same : m' ≡ m = ground arith in
            let good' : (fresh_active env tokens settings row w).0 ≡ ok m = good ∙ ap ok same in
            let (row_is, in_date, unrevoked, world) = fresh_active-active row m w good' a in
            (
              found ∙ ap some row_is,
              subst (λ (x : Mandate). env.clock w.tick <ℤ x.expires_at) row_is in_date,
              subst
                  (λ (x : Mandate).
                    is_revoked env tokens (revocation_id x ∷ []) (ticked w) ≡ ok false)
                  row_is unrevoked,
              ground arith,
            )
      ]
    ]
  ]

  root-eq-ok :
      (subject actor : String) (scope : Scope) (c : PrincipalChain)
      → root subject actor scope ≡ ok c
      → (c.subject ≡ subject) × (c.actor ≡ actor) × (c.scope ≡ scope) × (depth c ≡ 0)
  unfolding root make
  root-eq-ok subject actor scope c h = (ground arith, ground arith, ground arith, ground arith)

  require_binding-ok :
      (subject agent : String) (v : World)
      → (require_binding env tokens settings subject agent v).0 ≡ ok tt
      → env.check v subject binding_relation agent ≡ ok true
  unfolding require_binding
  require_binding-ok subject agent v h = ground arith

  issue_under-ok :
      (m : Mandate) (caller : String) (scope : Scope) (ttl : Option ℤ) (v : World) {t : IssuedToken}
      → (issue_under m caller scope ttl v).0 ≡ ok t
      → (check_mandate m caller scope ≡ ok tt)
        × (env.check v m.subject binding_relation m.agent ≡ ok true)
        × ((chain : PrincipalChain) × (root m.subject m.agent scope ≡ ok chain)
            × ((issue_token env tokens chain
                  (some (effective env tokens settings ttl m (env.clock v.tick)))
                  (some m.mandate_id)
                  (ticked v)).0
                ≡ ok t))
  unfolding issue_under require_binding ◌>>=◌
  issue_under-ok m caller scope ttl v h = elim (Result-cases (root m.subject m.agent scope)) [
    | inr (e, bad) ↦ absurd (ground arith)
    | inl (chain, good) ↦ (ground arith, ground arith, (chain, good, ground arith))
  ]

  issue_found :
      (mandate_id caller : String) (scope : Scope) (ttl : Option ℤ) (m : Mandate) (w : World)
      {t : IssuedToken}
      → (get_fresh env tokens settings mandate_id w).0 ≡ ok (some m)
      → (issue_under m caller scope ttl (get_fresh env tokens settings mandate_id w).1).0 ≡ ok t
      → Issued w mandate_id caller scope ttl t m
  issue_found mandate_id caller scope ttl m w {t} got h =
      let live =
        check_mandate-ok m caller scope (issue_under-ok m caller scope ttl _ {t = t} h).0 in
      let (found, in_date, unrevoked, world) = get_fresh-active mandate_id m w got live.0 in
      let (checked, bound, (chain, rooted, issued)) =
        issue_under-ok m caller scope ttl (ticked w) {t = t}
          (subst (λ v. (issue_under m caller scope ttl v).0 ≡ ok t) world h) in
      let (chain_is, under, flat, expiry) = issue_token-ok chain _ _ _ {t = t} issued in
      let (subject, actor, scoped, undelegated) = root-eq-ok m.subject m.agent scope chain rooted in
      record {
        found = found;
        stays_active = live.0;
        in_date = in_date;
        not_revoked = unrevoked;
        holder = live.1;
        within = live.2;
        bound = bound;
        subject = ap (λ (c : PrincipalChain). c.subject) chain_is ∙ subject;
        actor = ap (λ (c : PrincipalChain). c.actor) chain_is ∙ actor;
        scoped = ap (λ (c : PrincipalChain). c.scope) chain_is ∙ scoped;
        undelegated = ap depth chain_is ∙ undelegated;
        under = under;
        expiry = expiry;
      }

  -- `issue` returns a token only under a stored mandate that is ACTIVE, in date, not revoked by its
  -- id, and held by the caller, for a scope within the mandate's, while the engine still binds
  -- the agent to the subject. The token's chain is the root chain of the mandate's subject and
  -- agent with that scope, it carries the mandate's id, and its expiry is the one that the code
  -- computes from the least of the three spans.
  pub issue-Issued :
      (mandate_id caller : String) (scope : Scope) (ttl : Option ℤ) (w : World) {t : IssuedToken}
      → (issue env tokens settings mandate_id caller scope ttl w).0 ≡ ok t
      → (m : Mandate) × Issued w mandate_id caller scope ttl t m
  unfolding issue issue_under ◌>>=◌
  issue-Issued mandate_id caller scope ttl w {t} h =
      elim (Result-cases (get_fresh env tokens settings mandate_id w).0) [
        | inr (e, bad) ↦ absurd (ground arith)
        | inl (none, missing) ↦ absurd (ground arith)
        | inl (some m, got) ↦
            (m, issue_found mandate_id caller scope ttl m w {t = t} got (ground arith))
      ]

  or_span-kept : (s d : ℤ) → ¬ (s ≡ pos 0) → or_span (some s) d ≡ s
  or_span-kept (pos zero) d n = absurd (n refl)
  or_span-kept (pos (suc k)) d n = refl
  or_span-kept (negsuc k) d n = refl

  min_below : (a b c : ℤ) → (min_ℤ (min_ℤ a b) c ≤ℤ b) × (min_ℤ (min_ℤ a b) c ≤ℤ c)
  min_below a b c = (ground arith, ground arith)

  add_mono : (a b c : ℤ) → b ≤ℤ c → a +ℤ b ≤ℤ a +ℤ c
  add_mono a b c h = ground (arith, +ℤ_parts a b, +ℤ_parts a c)

  add_span :
      (issued at expires b : ℤ) → b ≤ℤ expires -ℤ at → (issued +ℤ b) +ℤ at ≤ℤ expires +ℤ issued
  add_span issued at expires b h = ground (
    arith,
    +ℤ_parts issued b,
    +ℤ_parts (issued +ℤ b) at,
    +ℤ_parts expires issued,
    -ℤ_parts expires at,
  )

  -- While the three spans' minimum is not zero, an issued token expires at most the mandate's
  -- longest span after its issue, and at most the time from the first of the two readings of
  -- the clock to the second after the mandate.
  pub issue_bounds :
      (mandate_id caller : String) (scope : Scope) (ttl : Option ℤ) (m : Mandate) (w : World)
      {t : IssuedToken}
      → lookup mandate_id w.mandates ≡ some m
      → ¬ (effective env tokens settings ttl m (env.clock (w.tick + 1)) ≡ pos 0)
      → (issue env tokens settings mandate_id caller scope ttl w).0 ≡ ok t
      → (t.expires_at ≤ℤ env.clock (w.tick + 1 + 1) +ℤ m.max_token_ttl)
        × (t.expires_at +ℤ env.clock (w.tick + 1) ≤ℤ m.expires_at +ℤ env.clock (w.tick + 1 + 1))
  issue_bounds mandate_id caller scope ttl m w {t} found nonzero h =
      let (m', issued) = issue-Issued mandate_id caller scope ttl w {t = t} h in
      let same : m' ≡ m = grind (arith, issued.found, found) in
      let span = effective env tokens settings ttl m (env.clock (w.tick + 1)) in
      let low =
        min_below (or_span ttl m.max_token_ttl) m.max_token_ttl
          (m.expires_at -ℤ env.clock (w.tick + 1)) in
      let expiry =
        (subst (Issued w mandate_id caller scope ttl t) same issued).expiry
        ∙ ap (λ s. env.clock (w.tick + 1 + 1) +ℤ s) (or_span-kept span tokens.ttl nonzero) in
      (
        rw expiry (add_mono (env.clock (w.tick + 1 + 1)) span m.max_token_ttl low.0),
        rw expiry (
            add_span (env.clock (w.tick + 1 + 1)) (env.clock (w.tick + 1)) m.expires_at span low.1),
      )

  same_span : (a : ℤ) → a -ℤ a ≡ pos 0
  unfolding ◌-ℤ◌
  same_span (pos n) = ground arith
  same_span (negsuc n) = ground arith

  min_zero : (a b : ℤ) → pos 0 <ℤ a → pos 0 <ℤ b → min_ℤ (min_ℤ a b) (pos 0) ≡ pos 0
  min_zero a b ha hb = ground arith

  -- If the clock reads the mandate's own expiry time when `issue` computes the span, the span is
  -- zero, a zero span counts as none, and the token outlives the mandate by the token service's
  -- own span.
  pub issue_at_expiry :
      (mandate_id caller : String) (scope : Scope) (ttl : Option ℤ) (m : Mandate) (w : World)
      {t : IssuedToken}
      → lookup mandate_id w.mandates ≡ some m
      → env.clock (w.tick + 1) ≡ m.expires_at
      → pos 0 <ℤ or_span ttl m.max_token_ttl
      → pos 0 <ℤ m.max_token_ttl
      → (issue env tokens settings mandate_id caller scope ttl w).0 ≡ ok t
      → t.expires_at ≡ env.clock (w.tick + 1 + 1) +ℤ tokens.ttl
  issue_at_expiry mandate_id caller scope ttl m w {t} found reached wanted longest h =
      let (m', issued) = issue-Issued mandate_id caller scope ttl w {t = t} h in
      let same : m' ≡ m = grind (arith, issued.found, found) in
      let none_left : effective env tokens settings ttl m (env.clock (w.tick + 1)) ≡ pos 0 =
        rw (reached, same_span m.expires_at)
          (min_zero (or_span ttl m.max_token_ttl) m.max_token_ttl wanted longest) in
      (subst (Issued w mandate_id caller scope ttl t) same issued).expiry
      ∙ ap (λ s. env.clock (w.tick + 1 + 1) +ℤ or_span (some s) tokens.ttl) none_left
