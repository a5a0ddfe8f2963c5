-- ===== src/Actions/Store/Laws.antt =====
-- The approval store under the calls that actions/gate.py, resolve_request and the sweep make, in
-- any order and from any thread: each is one step, since the store holds a lock.
use headofcontext.Prelude.{
  ◌≡◌, refl, sym, ◌∙◌, ap, subst, String, Bool, true, false, inl, inr, Option, some, List, [], ◌∷◌,
  ◌==◌, arith, any, lookup, insert, contains, lookup-insert, eq_iff, Option-cases, Bool-cases, Dict,
  if◌then◌else◌, filter, values,
}
use headofcontext.Prelude.Int.{ℤ}
use headofcontext.Actions.Request.{
  ApprovalRequest, ApprovalStatus, pending, approved, expired, consumed, status_eq,
}
use headofcontext.Actions.Store.{
  create, update, transition, consume, move, expire_rows, expire_pending, is_overdue,
}
use headofcontext.World.{World}

-- The fields of a resolution.
abbrev pub with_resolution :
    Option String → Option ℤ → Option String → ApprovalRequest → ApprovalRequest
with_resolution by at reason r = record r {
  resolved_by = by;
  resolved_at = at;
  resolution_reason = reason;
}

-- A status that no transition leaves.
abbrev pub is_final : ApprovalStatus → Bool
is_final pending = false
is_final approved = false
is_final _ = true

-- The calls of the store, by their call sites: `created` in ActionGate.gate, `updated` in
-- _expire_if_overdue of whatever it read before, `resolved` in resolve_request, `lapsed` in
-- ActionGate._expire_if_needed, `claimed` in redeem, `swept` by the sweep. `elsewhere` is a call
-- that leaves the approvals alone. No other code of the program writes to the store.
pub data StoreStep (w w' : World) : Type 0 where
  created : (r : ApprovalRequest) → w' ≡ (create r w).1 → StoreStep w w'
  updated :
      (r : ApprovalRequest) → w' ≡ (update (record r { status = expired }) w).1 → StoreStep w w'
  resolved :
      (request_id : String) (to_status : ApprovalStatus) (by : Option String) (at : Option ℤ)
      (reason : Option String)
      → w' ≡ (transition request_id (pending ∷ []) to_status (with_resolution by at reason) w).1
      → StoreStep w w'
  lapsed :
      (request_id : String)
      → w' ≡ (transition request_id (pending ∷ approved ∷ []) expired (λ r. r) w).1
      → StoreStep w w'
  claimed : (request_id : String) (now : ℤ) → w' ≡ (consume request_id now w).1 → StoreStep w w'
  swept : (now : ℤ) → w' ≡ (expire_pending now w).1 → StoreStep w w'
  elsewhere : w'.approvals ≡ w.approvals → StoreStep w w'

pub data StoreSteps (w : World) : World → Type 0 where
  here : StoreSteps w w
  next : {u v : World} → StoreSteps w u → StoreStep u v → StoreSteps w v

-- The rows have a request under this id, and its status is final.
pub record IsSpent (request_id : String) (rows : Dict ApprovalRequest) : Type 0 where
  pub request : ApprovalRequest
  pub found : lookup request_id rows ≡ some request
  pub final : is_final request.status ≡ true

insert_final-IsSpent :
    (k : String) (r : ApprovalRequest) (j : String) (rows : Dict ApprovalRequest)
    → is_final r.status ≡ true
    → IsSpent k rows
    → IsSpent k (insert j r rows)
insert_final-IsSpent k r j rows f s = elim (Bool-cases (j == k)) [
  | inl same ↦ record {
    request = r;
    found = lookup-insert j k r rows ∙ ap (λ b. if b then some r else lookup k rows) same;
    final = f;
  }
  | inr differ ↦ record {
    request = s.request;
    found =
        lookup-insert j k r rows ∙ (ap (λ b. if b then some r else lookup k rows) differ ∙ s.found);
    final = s.final;
  }
]

insert_other-IsSpent :
    (k : String) (r : ApprovalRequest) (j : String) (rows : Dict ApprovalRequest)
    → (j == k) ≡ false
    → IsSpent k rows
    → IsSpent k (insert j r rows)
insert_other-IsSpent k r j rows differ s = record {
  request = s.request;
  found =
      lookup-insert j k r rows ∙ (ap (λ b. if b then some r else lookup k rows) differ ∙ s.found);
  final = s.final;
}

expire_rows-IsSpent :
    (k : String) (overdue : List ApprovalRequest) (rows : Dict ApprovalRequest)
    → IsSpent k rows
    → IsSpent k (expire_rows overdue rows)
unfolding expire_rows
expire_rows-IsSpent k [] rows s = s
expire_rows-IsSpent k (r ∷ rest) rows s =
    expire_rows-IsSpent k rest _
      (insert_final-IsSpent k (record r { status = expired }) r.request_id rows refl s)

create-IsSpent :
    (k : String) (r : ApprovalRequest) (w : World)
    → IsSpent k w.approvals
    → IsSpent k (create r w).1.approvals
unfolding create
create-IsSpent k r w s = elim (Bool-cases (r.request_id == k)) [
  | inl same ↦
      let key = (eq_iff r.request_id k).0 same in
      let there : lookup r.request_id w.approvals ≡ some s.request =
        subst (λ j. lookup j w.approvals ≡ some s.request) (sym key) s.found in
      rw (there, contains) s
  | inr differ ↦ elim (Option-cases (lookup r.request_id w.approvals)) [
    | inl absent ↦
        rw (absent, contains) (insert_other-IsSpent k r r.request_id w.approvals differ s)
    | inr (old, present) ↦ rw (present, contains) s
  ]
]

transition-IsSpent :
    (k j : String) (from_statuses : List ApprovalStatus) (to_status : ApprovalStatus)
    (fields : ApprovalRequest → ApprovalRequest) (w : World)
    → ((s : ApprovalStatus) → is_final s ≡ true → any (status_eq s) from_statuses ≡ false)
    → IsSpent k w.approvals
    → IsSpent k (transition j from_statuses to_status fields w).1.approvals
unfolding transition
transition-IsSpent k j froms to fields w leaves s = elim (Bool-cases (j == k)) [
  | inl same ↦
      let key = (eq_iff j k).0 same in
      let there : lookup j w.approvals ≡ some s.request =
        subst (λ i. lookup i w.approvals ≡ some s.request) (sym key) s.found in
      rw (there, move) (rw (leaves s.request.status s.final) s)
  | inr differ ↦ elim (Option-cases (lookup j w.approvals)) [
    | inl absent ↦ rw (absent, move) s
    | inr (r, present) ↦ elim (Bool-cases (any (status_eq r.status) froms)) [
      | inl fits ↦ rw (present, move) (rw fits (insert_other-IsSpent k _ j w.approvals differ s))
      | inr unfit ↦ rw (present, move) (rw unfit s)
    ]
  ]
]

update-IsSpent :
    (k : String) (r : ApprovalRequest) (w : World)
    → is_final r.status ≡ true
    → IsSpent k w.approvals
    → IsSpent k (update r w).1.approvals
unfolding update
update-IsSpent k r w f s = elim (Option-cases (lookup r.request_id w.approvals)) [
  | inl absent ↦ rw (absent, contains) s
  | inr (old, present) ↦
      rw (present, contains) (insert_final-IsSpent k r r.request_id w.approvals f s)
]

final_not_pending :
    (s : ApprovalStatus) → is_final s ≡ true → any (status_eq s) (pending ∷ []) ≡ false
final_not_pending s h = ground arith

final_not_approved :
    (s : ApprovalStatus) → is_final s ≡ true → any (status_eq s) (approved ∷ []) ≡ false
final_not_approved s h = ground arith

final_not_live :
    (s : ApprovalStatus) → is_final s ≡ true → any (status_eq s) (pending ∷ approved ∷ []) ≡ false
final_not_live s h = ground arith

step-IsSpent :
    {w w' : World} (k : String) → StoreStep w w' → IsSpent k w.approvals → IsSpent k w'.approvals
unfolding expire_pending consume
step-IsSpent {w} k (created r e) s = rw e (create-IsSpent k r w s)
step-IsSpent {w} k (resolved j to by at reason e) s =
    rw e (
      transition-IsSpent k j (pending ∷ []) to (with_resolution by at reason) w final_not_pending s)
step-IsSpent {w} k (lapsed j e) s =
    rw e (transition-IsSpent k j (pending ∷ approved ∷ []) expired (λ r. r) w final_not_live s)
step-IsSpent {w} k (claimed j now e) s = rw e (
    transition-IsSpent k j (approved ∷ []) consumed (λ r. record r { consumed_at = some now }) w
      final_not_approved s)
step-IsSpent {w} k (updated r e) s =
    rw e (update-IsSpent k (record r { status = expired }) w refl s)
step-IsSpent {w} k (swept now e) s =
    rw e (expire_rows-IsSpent k (filter (is_overdue now) (values w.approvals)) w.approvals s)
step-IsSpent {w} k (elsewhere e) s = rw e s

-- A final status is final: none of these calls makes the request consumable again.
pub steps-IsSpent :
    {w w' : World} (k : String) → StoreSteps w w' → IsSpent k w.approvals → IsSpent k w'.approvals
steps-IsSpent k here s = s
steps-IsSpent k (next r st) s = step-IsSpent k st (steps-IsSpent k r s)

pub IsSpent-approved :
    (k : String) (r : ApprovalRequest) (rows : Dict ApprovalRequest)
    → IsSpent k rows
    → lookup k rows ≡ some r
    → ¬ (r.status ≡ approved)
IsSpent-approved k r rows s found a =
    let same : s.request ≡ r = grind (arith, s.found, found) in
    let final : is_final approved ≡ true =
      subst (λ x. is_final x ≡ true) (ap (λ (x : ApprovalRequest). x.status) same ∙ a) s.final in
    ground (arith, final)
