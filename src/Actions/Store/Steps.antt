-- ===== src/Actions/Store/Steps.antt =====
-- The calls of actions/approvals.py and actions/gate.py as sequences of store steps, and that each
-- row stays under its own id.
use headofcontext.Prelude.{
  ◌≡◌, refl, ap, subst, sym, ◌∙◌, String, Bool, true, false, Option, some, List, [], ◌∷◌, ◌==◌, inl,
  inr, any, lookup, insert, contains, lookup-insert, eq_iff, Option-cases, Bool-cases, Dict,
  if◌then◌else◌, filter, values, arith,
}
use headofcontext.Prelude.Int.{ℤ}
use headofcontext.Core.Errors.{Result, ok, err}
use headofcontext.Actions.Request.{
  ApprovalRequest, ApprovalStatus, pending, approved, expired, consumed, status_eq,
}
use headofcontext.Actions.Store.{
  create, update, transition, move, consume, expire_rows, expire_pending, is_overdue,
}
use headofcontext.Actions.Store.Laws.{
  StoreStep, with_resolution, created, updated, resolved, lapsed, claimed, swept, elsewhere,
  StoreSteps, here, next,
}
use headofcontext.World.{World, Exec, pure, lift, ◌>>=◌, continue}
use headofcontext.World.Stores.{KeepsStores}

-- Each row stands under its own id.
abbrev pub IsKeyed : World → Type 0
IsKeyed w = (k : String) (r : ApprovalRequest) → lookup k w.approvals ≡ some r → r.request_id ≡ k

AreKeyed : Dict ApprovalRequest → Type 0
AreKeyed rows = (k : String) (r : ApprovalRequest) → lookup k rows ≡ some r → r.request_id ≡ k

insert-AreKeyed :
    (j : String) (r : ApprovalRequest) (rows : Dict ApprovalRequest)
    → r.request_id ≡ j
    → AreKeyed rows
    → AreKeyed (insert j r rows)
unfolding AreKeyed
insert-AreKeyed j r rows e h k x found = elim (Bool-cases (j == k)) [
  | inl same ↦
      let there : some r ≡ some x =
        sym (lookup-insert j k r rows ∙ ap (λ b. if b then some r else lookup k rows) same)
        ∙ found in
      let is_r : r ≡ x = grind arith in
      sym (ap (λ y. y.request_id) is_r) ∙ (e ∙ (eq_iff j k).0 same)
  | inr differ ↦ h k x (
      sym (lookup-insert j k r rows ∙ ap (λ b. if b then some r else lookup k rows) differ) ∙ found)
]

expire_rows-AreKeyed :
    (overdue : List ApprovalRequest) (rows : Dict ApprovalRequest)
    → AreKeyed rows
    → AreKeyed (expire_rows overdue rows)
unfolding expire_rows
expire_rows-AreKeyed [] rows h = h
expire_rows-AreKeyed (r ∷ rest) rows h =
    expire_rows-AreKeyed rest _
      (insert-AreKeyed r.request_id (record r { status = expired }) rows refl h)

create-AreKeyed :
    (r : ApprovalRequest) (w : World) → AreKeyed w.approvals → AreKeyed (create r w).1.approvals
unfolding create
create-AreKeyed r w h = elim (Bool-cases (contains r.request_id w.approvals)) [
  | inl held ↦ rw held h
  | inr free ↦ rw free (insert-AreKeyed r.request_id r w.approvals refl h)
]

update-AreKeyed :
    (r : ApprovalRequest) (w : World) → AreKeyed w.approvals → AreKeyed (update r w).1.approvals
unfolding update
update-AreKeyed r w h = elim (Bool-cases (contains r.request_id w.approvals)) [
  | inl held ↦ rw held (insert-AreKeyed r.request_id r w.approvals refl h)
  | inr free ↦ rw free h
]

transition-AreKeyed :
    (j : String) (from_statuses : List ApprovalStatus) (to_status : ApprovalStatus)
    (fields : ApprovalRequest → ApprovalRequest) (w : World)
    → ((r : ApprovalRequest) → (fields r).request_id ≡ r.request_id)
    → AreKeyed w.approvals
    → AreKeyed (transition j from_statuses to_status fields w).1.approvals
unfolding transition AreKeyed
transition-AreKeyed j froms to fields w keeps h = elim (Option-cases (lookup j w.approvals)) [
  | inl absent ↦ rw (absent, move) h
  | inr (r, present) ↦ elim (Bool-cases (any (status_eq r.status) froms)) [
    | inl fits ↦
        rw (present, move) (rw fits (insert-AreKeyed j _ w.approvals (keeps r ∙ h j r present) h))
    | inr unfit ↦ rw (present, move) (rw unfit h)
  ]
]

step-IsKeyed : {w w' : World} → StoreStep w w' → IsKeyed w → IsKeyed w'
unfolding expire_pending consume AreKeyed
step-IsKeyed {w} (created r e) h = subst IsKeyed (sym e) (create-AreKeyed r w h)
step-IsKeyed {w} (resolved j to by at reason e) h =
    subst IsKeyed (sym e)
      (transition-AreKeyed j (pending ∷ []) to (with_resolution by at reason) w (λ r. refl) h)
step-IsKeyed {w} (lapsed j e) h =
    subst IsKeyed (sym e)
      (transition-AreKeyed j (pending ∷ approved ∷ []) expired (λ r. r) w (λ r. refl) h)
step-IsKeyed {w} (claimed j now e) h = subst IsKeyed (sym e) (
    transition-AreKeyed j (approved ∷ []) consumed (λ r. record r { consumed_at = some now }) w
      (λ r. refl) h)
step-IsKeyed {w} (updated r e) h =
    subst IsKeyed (sym e) (update-AreKeyed (record r { status = expired }) w h)
step-IsKeyed {w} (swept now e) h =
    subst IsKeyed (sym e)
      (expire_rows-AreKeyed (filter (is_overdue now) (values w.approvals)) w.approvals h)
step-IsKeyed {w} (elsewhere e) h = subst AreKeyed (sym e) h

pub steps-IsKeyed : {w w' : World} → StoreSteps w w' → IsKeyed w → IsKeyed w'
steps-IsKeyed here h = h
steps-IsKeyed (next r st) h = step-IsKeyed st (steps-IsKeyed r h)

pub steps_trans : {u v w : World} → StoreSteps u v → StoreSteps v w → StoreSteps u w
steps_trans r here = r
steps_trans r (next s st) = next (steps_trans r s) st

-- An action that changes the approvals by store steps alone.
pub record Stepwise {A : Type 0} (m : Exec A) : Type 0 where
  pub at : (w : World) → StoreSteps w (m w).1

module _ {A : Type 0} where
  pub Stepwise-of_KeepsStores : (m : Exec A) → KeepsStores m → Stepwise m
  Stepwise-of_KeepsStores m k = record { at = λ w. next here (elsewhere ((k.at w).approvals)) }

  pub Stepwise-pure : (a : A) → Stepwise (pure a)
  unfolding pure
  Stepwise-pure a = record { at = λ w. here }

  pub Stepwise-lift : (r : Result A) → Stepwise (lift r)
  unfolding lift
  Stepwise-lift r = record { at = λ w. here }

  pub Stepwise-if :
      (b : Bool) (m n : Exec A) → Stepwise m → Stepwise n → Stepwise (if b then m else n)
  Stepwise-if true m n h k = h
  Stepwise-if false m n h k = k

module _ {A B : Type 0} where
  Stepwise-continue :
      (f : A → Exec B)
      → ((a : A) → Stepwise (f a))
      → (w : World) (r : Result A) (v : World) → StoreSteps w v
      → StoreSteps w (continue r f v).1
  Stepwise-continue f k w (ok a) v q = steps_trans q ((k a).at v)
  Stepwise-continue f k w (err e) v q = q

  pub Stepwise-bind :
      (m : Exec A) (f : A → Exec B) → Stepwise m → ((a : A) → Stepwise (f a)) → Stepwise (m >>= f)
  unfolding ◌>>=◌
  Stepwise-bind m f h k = record { at = λ w. Stepwise-continue f k w (m w).0 (m w).1 (h.at w) }

pub Stepwise-create : (r : ApprovalRequest) → Stepwise (create r)
Stepwise-create r = record { at = λ w. next here (created r refl) }

pub Stepwise-expire : (r : ApprovalRequest) → Stepwise (update (record r { status = expired }))
Stepwise-expire r = record { at = λ w. next here (updated r refl) }

pub Stepwise-resolve :
    (j : String) (to_status : ApprovalStatus) (by : Option String) (at : Option ℤ)
    (reason : Option String)
    → Stepwise (transition j (pending ∷ []) to_status (with_resolution by at reason))
Stepwise-resolve j to by at reason = record {
  at = λ w. next here (resolved j to by at reason refl);
}

pub Stepwise-expire_live :
    (j : String) → Stepwise (transition j (pending ∷ approved ∷ []) expired (λ r. r))
Stepwise-expire_live j = record { at = λ w. next here (lapsed j refl) }

pub Stepwise-consume : (j : String) (now : ℤ) → Stepwise (consume j now)
Stepwise-consume j now = record { at = λ w. next here (claimed j now refl) }
