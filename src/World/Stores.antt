-- ===== src/World/Stores.antt =====
-- Actions that leave every store alone, however often they journal and whether or not they raise.
use headofcontext.Prelude.{◌≡◌, ap, subst, Bool, true, false, if◌then◌else◌}
use headofcontext.Core.Errors.{Result, ok, err}
use headofcontext.World.{World, Exec, pure, lift, gets, ◌>>=◌, continue}
use headofcontext.World.Logged.{SameStores, SameStores-trans, IsQuiet, Logged, Logs, quiet_rules}

pub record KeepsStores {A : Type 0} (m : Exec A) : Type 0 where
  pub at : (w : World) → SameStores w (m w).1

module _ {A : Type 0} where
  pub KeepsStores-of_IsQuiet : (m : Exec A) → IsQuiet m → KeepsStores m
  KeepsStores-of_IsQuiet m q = record { at = λ w. (q.at w).stores }

  Logged-stores : (w : World) (r : Result A) (v : World) → Logged w (r, v) → SameStores w v
  Logged-stores w (ok a) v l = l.0
  Logged-stores w (err e) v l = l.stores

  pub KeepsStores-of_Logs : (m : Exec A) → Logs m → KeepsStores m
  KeepsStores-of_Logs m l = record { at = λ w. Logged-stores w (m w).0 (m w).1 (l.at w) }

  pub KeepsStores-pure : (a : A) → KeepsStores (pure a)
  KeepsStores-pure a = KeepsStores-of_IsQuiet (pure a) (search quiet_rules)

  pub KeepsStores-lift : (r : Result A) → KeepsStores (lift r)
  KeepsStores-lift r = KeepsStores-of_IsQuiet (lift r) (search quiet_rules)

  pub KeepsStores-gets : (f : World → A) → KeepsStores (gets f)
  KeepsStores-gets f = KeepsStores-of_IsQuiet (gets f) (search quiet_rules)

  pub KeepsStores-if :
      (b : Bool) (m n : Exec A) → KeepsStores m → KeepsStores n → KeepsStores (if b then m else n)
  KeepsStores-if true m n h k = h
  KeepsStores-if false m n h k = k

module _ {A B : Type 0} where
  KeepsStores-continue :
      (f : A → Exec B)
      → ((a : A) → KeepsStores (f a))
      → (w : World) (r : Result A) (v : World) → SameStores w v
      → SameStores w (continue r f v).1
  KeepsStores-continue f k w (ok a) v q = SameStores-trans w v _ q ((k a).at v)
  KeepsStores-continue f k w (err e) v q = q

  pub KeepsStores-bind :
      (m : Exec A) (f : A → Exec B)
      → KeepsStores m
      → ((a : A) → KeepsStores (f a))
      → KeepsStores (m >>= f)
  unfolding ◌>>=◌
  KeepsStores-bind m f h k = record {
    at = λ w. KeepsStores-continue f k w (m w).0 (m w).1 (h.at w);
  }

pub ruleset stores_rules =
    (KeepsStores-pure, KeepsStores-lift, KeepsStores-gets, KeepsStores-if, KeepsStores-bind)

-- A call that keeps the stores, as an equation of its result.
pub kept_stores :
    {A : Type 0} {m : Exec A}
    → KeepsStores m
    → {w v : World} {r : Result A} → m w ≡ (r, v)
    → SameStores w v
kept_stores k {w} e = subst (SameStores w) (ap (λ r. r.1) e) (k.at w)
