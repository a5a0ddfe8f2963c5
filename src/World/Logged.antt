-- ===== src/World/Logged.antt =====
-- How a call may leave the state: the stores alone, and the journal with one more event or none.
use headofcontext.Prelude.{
  ◌≡◌, refl, ◌∙◌, ap, Bool, true, false, Option, none, some, [], ◌∷◌, ◌++◌, if◌then◌else◌,
}
use headofcontext.Core.Errors.{Exception, Result, ok, err}
use headofcontext.Core.Events.{AuditEvent}
use headofcontext.World.{
  World, Env, Exec, ticked, record_event, pure, lift, gets, ◌>>=◌, now, uuid4, elapsed, continue,
}

pub record SameStores (w w' : World) : Type 0 where
  pub approvals : w'.approvals ≡ w.approvals
  pub mandates : w'.mandates ≡ w.mandates
  pub revoked : w'.revoked ≡ w.revoked
  pub ledger : w'.ledger ≡ w.ledger
  pub tuples : w'.tuples ≡ w.tuples
  pub contents : w'.contents ≡ w.contents

pub SameStores-refl : (w : World) → SameStores w w
SameStores-refl w = record {
  approvals = refl;
  mandates = refl;
  revoked = refl;
  ledger = refl;
  tuples = refl;
  contents = refl;
}

pub SameStores-trans : (u v w : World) → SameStores u v → SameStores v w → SameStores u w
SameStores-trans u v w a b = record {
  approvals = b.approvals ∙ a.approvals;
  mandates = b.mandates ∙ a.mandates;
  revoked = b.revoked ∙ a.revoked;
  ledger = b.ledger ∙ a.ledger;
  tuples = b.tuples ∙ a.tuples;
  contents = b.contents ∙ a.contents;
}

pub SameStores-ticked : (w : World) → SameStores w (ticked w)
SameStores-ticked w = record {
  approvals = refl;
  mandates = refl;
  revoked = refl;
  ledger = refl;
  tuples = refl;
  contents = refl;
}

SameStores-journaled :
    (w : World) (event : AuditEvent) → SameStores w (record w { journal = w.journal ++ event ∷ [] })
SameStores-journaled w event = record {
  approvals = refl;
  mandates = refl;
  revoked = refl;
  ledger = refl;
  tuples = refl;
  contents = refl;
}

-- No store changed, and nothing was journaled.
pub record Quiet (w w' : World) : Type 0 where
  pub stores : SameStores w w'
  pub journal : w'.journal ≡ w.journal

pub Quiet-refl : (w : World) → Quiet w w
Quiet-refl w = record { stores = SameStores-refl w; journal = refl }

pub Quiet-trans : (u v w : World) → Quiet u v → Quiet v w → Quiet u w
Quiet-trans u v w a b = record {
  stores = SameStores-trans u v w a.stores b.stores;
  journal = b.journal ∙ a.journal;
}

pub Quiet-ticked : (w : World) → Quiet w (ticked w)
Quiet-ticked w = record { stores = SameStores-ticked w; journal = refl }

-- An action that never changes a store nor the journal.
pub record IsQuiet {A : Type 0} (m : Exec A) : Type 0 where
  pub at : (w : World) → Quiet w (m w).1

-- No store changed; a call that returned journaled one event, and one that raised journaled none.
abbrev pub Logged : {A : Type 0} → World → Result A × World → Type 0
Logged w (ok a, w') =
    SameStores w w' × ((event : AuditEvent) × (w'.journal ≡ w.journal ++ event ∷ []))
Logged w (err e, w') = Quiet w w'

pub record Logs {A : Type 0} (m : Exec A) : Type 0 where
  pub at : (w : World) → Logged w (m w)

Quiet-Logged :
    {A : Type 0} (u v : World) (r : Result A × World) → Quiet u v → Logged v r → Logged u r
Quiet-Logged u v (ok a, w) q (s, (event, j)) =
    (SameStores-trans u v w q.stores s, (event, j ∙ ap (λ l. l ++ event ∷ []) q.journal))
Quiet-Logged u v (err e, w) q l = Quiet-trans u v w q l

module _ {A : Type 0} where
  pub IsQuiet-pure : (a : A) → IsQuiet (pure a)
  unfolding pure
  IsQuiet-pure a = record { at = Quiet-refl }

  pub IsQuiet-lift : (r : Result A) → IsQuiet (lift r)
  unfolding lift
  IsQuiet-lift r = record { at = Quiet-refl }

  pub IsQuiet-gets : (f : World → A) → IsQuiet (gets f)
  unfolding gets
  IsQuiet-gets f = record { at = Quiet-refl }

  pub IsQuiet-if : (b : Bool) (m n : Exec A) → IsQuiet m → IsQuiet n → IsQuiet (if b then m else n)
  IsQuiet-if true m n h k = h
  IsQuiet-if false m n h k = k

  pub Logs-if : (b : Bool) (m n : Exec A) → Logs m → Logs n → Logs (if b then m else n)
  Logs-if true m n h k = h
  Logs-if false m n h k = k

module _ {A B : Type 0} where
  IsQuiet-continue :
      (f : A → Exec B)
      → ((a : A) → IsQuiet (f a))
      → (w : World) (r : Result A) (v : World) → Quiet w v
      → Quiet w (continue r f v).1
  IsQuiet-continue f k w (ok a) v q = Quiet-trans w v _ q ((k a).at v)
  IsQuiet-continue f k w (err e) v q = q

  pub IsQuiet-bind :
      (m : Exec A) (f : A → Exec B) → IsQuiet m → ((a : A) → IsQuiet (f a)) → IsQuiet (m >>= f)
  unfolding ◌>>=◌
  IsQuiet-bind m f h k = record { at = λ w. IsQuiet-continue f k w (m w).0 (m w).1 (h.at w) }

  Logs-continue :
      (f : A → Exec B)
      → ((a : A) → Logs (f a))
      → (w : World) (r : Result A) (v : World) → Quiet w v
      → Logged w (continue r f v)
  Logs-continue f k w (ok a) v q = Quiet-Logged w v (f a v) q ((k a).at v)
  Logs-continue f k w (err e) v q = q

  -- A quiet step, then a logged one.
  pub Logs-bind :
      (m : Exec A) (f : A → Exec B) → IsQuiet m → ((a : A) → Logs (f a)) → Logs (m >>= f)
  unfolding ◌>>=◌
  Logs-bind m f h k = record { at = λ w. Logs-continue f k w (m w).0 (m w).1 (h.at w) }

  Logged-continue :
      (b : B) (w : World) (r : Result A) (v : World)
      → Logged w (r, v)
      → Logged w (continue r (λ _. pure b) v)
  unfolding pure
  Logged-continue b w (ok a) v l = l
  Logged-continue b w (err e) v l = l

  -- A logged step, then a value.
  pub Logs-then_pure : (m : Exec A) (b : B) → Logs m → Logs (m >>= λ _. pure b)
  unfolding ◌>>=◌
  Logs-then_pure m b h = record { at = λ w. Logged-continue b w (m w).0 (m w).1 (h.at w) }

module _ {Args : Type 0} (env : Env Args) where
  pub IsQuiet-now : IsQuiet (now env)
  unfolding now
  IsQuiet-now = record { at = Quiet-ticked }

  pub IsQuiet-uuid4 : IsQuiet (uuid4 env)
  unfolding uuid4
  IsQuiet-uuid4 = record { at = Quiet-ticked }

  pub IsQuiet-elapsed : IsQuiet (elapsed env)
  unfolding elapsed
  IsQuiet-elapsed = record { at = Quiet-ticked }

  pub Logs-record_event : (event : AuditEvent) → Logs (record_event env event)
  unfolding record_event
  Logs-record_event event = record { at = λ w. settle w (env.refuses w event) }
    where
      settle :
          (w : World) (o : Option Exception)
          → Logged {A = Unit {0}} w (elim o [
            | none ↦ (ok tt, record w { journal = w.journal ++ event ∷ [] })
            | some e ↦ (err e, w)
          ])
      settle w none = (SameStores-journaled w event, (event, refl))
      settle w (some e) = Quiet-refl w

pub ruleset quiet_rules = (
  IsQuiet-pure, IsQuiet-lift, IsQuiet-gets, IsQuiet-if, IsQuiet-bind, IsQuiet-now, IsQuiet-uuid4,
  IsQuiet-elapsed,
)

pub ruleset logs_rules = (quiet_rules, Logs-if, Logs-bind, Logs-then_pure, Logs-record_event)
