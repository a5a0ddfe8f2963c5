-- ===== src/Actions/Store.antt =====
-- actions/approvals.py, InMemoryApprovalStore: each method is one step, since it holds the lock. The
-- keyword arguments `**fields` of a transition are a function on the request.
pub mod Laws
pub mod Steps
use headofcontext.Prelude.{
  ℕ, String, Bool, true, false, ◌&&◌, ◌||◌, not, Option, none, some, List, [], ◌∷◌, map, any,
  filter, length, lookup, insert, contains, values, Dict, is_none, ◌==◌, if◌then◌else◌,
}
use headofcontext.Prelude.Int.{ℤ, ltb_ℤ}
use headofcontext.Core.Errors.{Result, ok, raised, approval_store_unavailable}
use headofcontext.Actions.Request.{
  ApprovalRequest, ApprovalStatus, pending, approved, consumed, expired, status_eq,
}
use headofcontext.World.{World, Exec}

unfoldable pub create : ApprovalRequest → Exec (Unit {0})
create request w =
    if contains request.request_id w.approvals
    then (raised approval_store_unavailable, w)
    else (ok tt, record w { approvals = insert request.request_id request w.approvals })

unfoldable pub get : String → Exec (Option ApprovalRequest)
get request_id w = (ok (lookup request_id w.approvals), w)

unfoldable pub update : ApprovalRequest → Exec (Unit {0})
update request w =
    if contains request.request_id w.approvals
    then (ok tt, record w { approvals = insert request.request_id request w.approvals })
    else (raised approval_store_unavailable, w)

-- `with_status(status, **changes)`.
abbrev pub with_status :
    ApprovalStatus → (ApprovalRequest → ApprovalRequest) → ApprovalRequest → ApprovalRequest
with_status status changes r = let s = changes r in record s { status = status }

abbrev pub move :
    String
    → List ApprovalStatus
    → ApprovalStatus
    → (ApprovalRequest → ApprovalRequest)
    → Option ApprovalRequest
    → Exec (Option ApprovalRequest)
move request_id from_statuses to_status fields none w = (ok none, w)
move request_id from_statuses to_status fields (some current) w =
    if any (status_eq current.status) from_statuses
    then (
      ok (some (with_status to_status fields current)),
      record w { approvals = insert request_id (with_status to_status fields current) w.approvals },
    )
    else (ok none, w)

unfoldable pub transition :
    String
    → List ApprovalStatus
    → ApprovalStatus
    → (ApprovalRequest → ApprovalRequest)
    → Exec (Option ApprovalRequest)
transition request_id from_statuses to_status fields w =
    move request_id from_statuses to_status fields (lookup request_id w.approvals) w

unfoldable pub consume : String → ℤ → Exec (Option ApprovalRequest)
unfolding transition
consume request_id now =
    transition request_id (approved ∷ []) consumed (λ r. record r { consumed_at = some now })

abbrev pub is_listed : Option String → ApprovalRequest → Bool
is_listed none r = status_eq r.status pending
is_listed (some s) r = status_eq r.status pending && r.subject == s

unfoldable pub list_pending : Option String → Exec (List ApprovalRequest)
list_pending subject w = (ok (filter (is_listed subject) (values w.approvals)), w)

-- `r.status is ApprovalStatus.PENDING and r.expires_at < now`.
abbrev pub is_overdue : ℤ → ApprovalRequest → Bool
is_overdue now r = status_eq r.status pending && ltb_ℤ r.expires_at now

-- `for r in overdue: self._rows[r.request_id] = r.with_status(EXPIRED)`.
unfoldable pub expire_rows : List ApprovalRequest → Dict ApprovalRequest → Dict ApprovalRequest
expire_rows [] rows = rows
expire_rows (r ∷ rest) rows =
    expire_rows rest (insert r.request_id (record r { status = expired }) rows)

unfoldable pub expire_pending : ℤ → Exec ℕ
unfolding expire_rows
expire_pending now w =
    let overdue = filter (is_overdue now) (values w.approvals) in
    (ok (length overdue), record w { approvals = expire_rows overdue w.approvals })
