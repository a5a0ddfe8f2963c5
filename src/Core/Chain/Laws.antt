-- ===== src/Core/Chain/Laws.antt =====
-- `delegate` on every branch, from a chain that its constructor accepted.
use headofcontext.Prelude.{
  ◌≡◌, refl, ◌<◌, ◌≤◌, String, true, false, not, some, List, [], ◌∷◌, ◌++◌, arith, length, ltb,
  ◌==◌, eq_iff, eq_refl, sym, ◌∙◌, subst, leb, ◌||◌, length-append, if◌then◌else◌, Bool-cases, inl,
  inr,
}
use headofcontext.Core.Errors.{ok, raised, invariant_violation, scope_escalation}
use headofcontext.Core.Refs.{is_ref}
use headofcontext.Core.Scope.{Scope, scope_eq, is_subset_of}
use headofcontext.Core.Scope.Laws.{scope_eq_refl, is_subset_of-scope_eq}
use headofcontext.Core.Chain.{
  Delegation, PrincipalChain, max_delegation_depth, last_of, check_links, check_delegation,
  post_init, root_scope, delegate, depth,
}

-- What `__post_init__` checks.
pub record IsValid (c : PrincipalChain) : Type 0 where
  pub subject_user : is_ref c.subject "user" ≡ true
  pub actor_agent : is_ref c.actor "agent" ≡ true
  pub within_depth : depth c ≤ max_delegation_depth
  pub links : check_delegation c c.delegation ≡ ok tt

pub IsValid-post_init : (c : PrincipalChain) → IsValid c → post_init c ≡ ok tt
unfolding post_init
IsValid-post_init c v = ground (arith, v.links)

pub post_init-IsValid : (c : PrincipalChain) → post_init c ≡ ok tt → IsValid c
unfolding post_init
post_init-IsValid c h = record {
  subject_user = ground arith;
  actor_agent = ground arith;
  within_depth = ground arith;
  links = ground arith;
}

-- One more link after the last one.
last_of_append :
    (first : Delegation) (rest : List Delegation) (link : Delegation)
    → last_of first (rest ++ link ∷ []) ≡ link
last_of_append first [] link = refl
last_of_append first (d ∷ rest) link = last_of_append d rest link

check_links_append :
    (first : Delegation) (rest : List Delegation) (link : Delegation)
    → check_links first rest ≡ ok tt
    → link.from_actor ≡ (last_of first rest).to_actor
    → is_subset_of link.scope (last_of first rest).scope ≡ true
    → check_links first (rest ++ link ∷ []) ≡ ok tt
unfolding check_links
check_links_append first [] link h e k = rw (e, k, eq_refl first.to_actor)
check_links_append first (d ∷ rest) link h e k = ground (arith, check_links_append d rest link)

-- The chain that a successful delegation returns.
abbrev pub extended : PrincipalChain → String → Scope → PrincipalChain
extended c to_actor scope = record {
  subject = c.subject;
  actor = to_actor;
  delegation =
      c.delegation ++ record { from_actor = c.actor; to_actor = to_actor; scope = scope } ∷ [];
  scope = scope;
  recorded_root = some (root_scope c);
}

check_delegation-extended :
    (c : PrincipalChain) (ds : List Delegation) (to_actor : String) (scope : Scope)
    → check_delegation c ds ≡ ok tt
    → is_subset_of scope c.scope ≡ true
    → check_delegation
        (extended c to_actor scope)
        (ds ++ record { from_actor = c.actor; to_actor = to_actor; scope = scope } ∷ [])
      ≡ ok tt
unfolding check_delegation check_links
check_delegation-extended c [] to_actor scope h k = rw (eq_refl to_actor, scope_eq_refl scope) refl
check_delegation-extended c (first ∷ rest) to_actor scope h k =
    let target : (last_of first rest).to_actor == c.actor ≡ true = ground arith in
    let scoped : scope_eq (last_of first rest).scope c.scope ≡ true = ground arith in
    let linked : check_links first rest ≡ ok tt = ground arith in
    let link : Delegation = record { from_actor = c.actor; to_actor = to_actor; scope = scope } in
    rw (last_of_append first rest link, eq_refl to_actor, scope_eq_refl scope)
      (check_links_append first rest link linked (sym ((eq_iff _ _).0 target))
        (is_subset_of-scope_eq scope (last_of first rest).scope c.scope scoped k))

extended-IsValid :
    (c : PrincipalChain) (to_actor : String) (scope : Scope)
    → IsValid c
    → is_subset_of scope c.scope ≡ true
    → is_ref to_actor "agent" ≡ true
    → depth c < max_delegation_depth
    → IsValid (extended c to_actor scope)
extended-IsValid c to_actor scope v k a d = record {
  subject_user = v.subject_user;
  actor_agent = a;
  within_depth = omega (
    arith,
    length-append c.delegation
        (record { from_actor = c.actor; to_actor = to_actor; scope = scope } ∷ []),
  );
  links = check_delegation-extended c c.delegation to_actor scope v.links k;
}

extended_too_deep :
    (c : PrincipalChain) (to_actor : String) (scope : Scope)
    → IsValid c
    → is_ref to_actor "agent" ≡ true
    → leb max_delegation_depth (depth c) ≡ true
    → post_init (extended c to_actor scope) ≡ raised invariant_violation
unfolding post_init
extended_too_deep c to_actor scope v a deep =
    let link : Delegation = record { from_actor = c.actor; to_actor = to_actor; scope = scope } in
    let over : ltb max_delegation_depth (length (c.delegation ++ link ∷ [])) ≡ true =
      ground (arith, length-append c.delegation (link ∷ [])) in
    rw (v.subject_user, a, over)

-- From a valid chain, `delegate` refuses a wider scope as an escalation (I1), and a target that is
-- no agent, is the actor itself or would be a ninth hop as an invariant violation; in every other
-- case it returns the chain with the same subject, the new actor and scope, and one more link.
pub delegate_lem :
    (c : PrincipalChain) (to_actor : String) (scope : Scope)
    → IsValid c
    → delegate c to_actor scope ≡ (
        if not (is_subset_of scope c.scope)
        then raised scope_escalation
        else if not (is_ref to_actor "agent")
            || c.actor == to_actor
            || leb max_delegation_depth (depth c)
        then raised invariant_violation
        else ok (extended c to_actor scope))
unfolding delegate
delegate_lem c to_actor scope v = elim (Bool-cases (is_subset_of scope c.scope)) [
  | inr wide ↦ rw wide
  | inl narrow ↦ elim (Bool-cases (is_ref to_actor "agent")) [
    | inr stranger ↦ rw (narrow, v.actor_agent, stranger)
    | inl agent ↦ elim (Bool-cases (c.actor == to_actor)) [
      | inl same ↦ rw (narrow, v.actor_agent, agent, same)
      | inr differ ↦ elim (Bool-cases (leb max_delegation_depth (depth c))) [
        | inl deep ↦
            rw (narrow, v.actor_agent, agent, differ, deep)
              (rw (extended_too_deep c to_actor scope v agent deep))
        | inr room ↦
            rw (narrow, v.actor_agent, agent, differ, room)
              (rw (
                IsValid-post_init (extended c to_actor scope)
                  (extended-IsValid c to_actor scope v narrow agent (ground arith))))
      ]
    ]
  ]
]

-- A delegation that returned was narrowing, to an agent, below the depth limit.
pub delegate-eq-ok :
    (c : PrincipalChain) (to_actor : String) (scope : Scope) {d : PrincipalChain}
    → IsValid c
    → delegate c to_actor scope ≡ ok d
    → (is_subset_of scope c.scope ≡ true) × (d ≡ extended c to_actor scope) × IsValid d
delegate-eq-ok c to_actor scope {d} v h =
    let branches = sym (delegate_lem c to_actor scope v) ∙ h in
    let narrow : is_subset_of scope c.scope ≡ true = ground arith in
    let agent : is_ref to_actor "agent" ≡ true = ground arith in
    let room : leb max_delegation_depth (depth c) ≡ false = ground arith in
    let same : d ≡ extended c to_actor scope = ground arith in
    (
      narrow,
      same,
      subst IsValid (sym same) (extended-IsValid c to_actor scope v narrow agent (ground arith)),
    )
