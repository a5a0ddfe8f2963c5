-- ===== src/Core/Chain/Delegated.antt =====
-- Chains of delegations: what holds between the first chain and any later one.
use headofcontext.Prelude.{◌≡◌, refl, ◌≤◌, ◌+◌, ℕ, String, true, [], ◌∷◌, arith, length-append}
use headofcontext.Core.Errors.{ok}
use headofcontext.Core.Scope.{Scope, is_subset_of}
use headofcontext.Core.Scope.Laws.{IsValid as IsValidScope, is_subset_of_refl, is_subset_of_trans}
use headofcontext.Core.Chain.{PrincipalChain, max_delegation_depth, root_scope, delegate, depth}
use headofcontext.Core.Chain.Laws.{IsValid, delegate-eq-ok}

-- `Delegated c n d`: `d` came from `c` by `n` successful calls of `delegate`, by any actors.
pub data Delegated (c : PrincipalChain) : ℕ → PrincipalChain → Type 0 where
  start : {n : ℕ} → n ≡ 0 → Delegated c n c
  hop :
      {n m : ℕ} {d e : PrincipalChain} (to_actor : String) (scope : Scope)
      → Delegated c n d
      → delegate d to_actor scope ≡ ok e
      → m ≡ n + 1
      → Delegated c m e

-- What a chain of `n` hops keeps.
pub record Attenuates (c : PrincipalChain) (n : ℕ) (d : PrincipalChain) : Type 0 where
  pub valid : IsValid d
  pub same_subject : d.subject ≡ c.subject
  pub narrower : is_subset_of d.scope c.scope ≡ true
  pub same_root : root_scope d ≡ root_scope c
  pub hops : depth d ≡ depth c + n

hop-Attenuates :
    (c d e : PrincipalChain) (n : ℕ) (to_actor : String) (scope : Scope)
    → IsValidScope c.scope
    → Attenuates c n d
    → delegate d to_actor scope ≡ ok e
    → Attenuates c (n + 1) e
unfolding root_scope
hop-Attenuates c d e n to_actor scope vs a h =
    let (narrow, same, valid) = delegate-eq-ok d to_actor scope a.valid h in
    record {
      valid = valid;
      same_subject = rw same a.same_subject;
      narrower = rw same (is_subset_of_trans scope d.scope c.scope vs narrow a.narrower);
      same_root = rw same a.same_root;
      hops = rw same (
          omega (
            arith,
            a.hops,
            length-append d.delegation
                (record { from_actor = d.actor; to_actor = to_actor; scope = scope } ∷ []),
          ));
    }

-- However many agents delegate in between: the subject is the one of the first chain (I2), the
-- scope is within the first one's (I1), the recorded root scope stays, each hop adds one link,
-- and there are at most eight.
pub Delegated-Attenuates :
    {c : PrincipalChain} {n : ℕ} {d : PrincipalChain}
    → IsValid c
    → IsValidScope c.scope
    → Delegated c n d
    → Attenuates c n d × (depth c + n ≤ max_delegation_depth)
Delegated-Attenuates v vs r =
    let a = attenuates v vs r in (a, omega (arith, a.hops, a.valid.within_depth))
  where
    attenuates :
        {c : PrincipalChain} {n : ℕ} {d : PrincipalChain}
        → IsValid c
        → IsValidScope c.scope
        → Delegated c n d
        → Attenuates c n d
    attenuates {c} v vs (start e) = record {
      valid = v;
      same_subject = refl;
      narrower = is_subset_of_refl c.scope;
      same_root = refl;
      hops = omega arith;
    }
    attenuates {c} v vs (hop {n = n} {d = d} {e = e} t s r h q) =
        rw q (hop-Attenuates c d e n t s vs (attenuates v vs r) h)
