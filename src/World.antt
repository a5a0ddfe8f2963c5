-- ===== src/World.antt =====
-- The state that the services share, and what they take from outside: the engine behind the
-- AuthzEngine protocol, the clock, fresh ids, the audit sink and the hash of tool arguments.
pub mod Logged
pub mod Stores
pub mod Returns
use headofcontext.Prelude.{
  ℕ, ◌+◌, zero, String, Bool, Option, none, some, List, [], ◌∷◌, ◌++◌, Dict,
}
use headofcontext.Prelude.Int.{ℤ}
use headofcontext.Core.Errors.{Exception, Result, ok, err}
use headofcontext.Core.Decision.{Policy}
use headofcontext.Core.Events.{AuditEvent}
use headofcontext.Actions.Request.{ApprovalRequest}
use headofcontext.Tokens.Mandate.{Mandate}
use headofcontext.Memory.Record.{MemoryRecord, TupleWrite, ContentWrite}

-- `tick` counts the readings of the clock, of the timer and of the source of fresh ids. `journal`
-- holds the events that the sink accepted; `revoked` maps a revocation id to its reason and time.
-- `ledger` holds the provenance of memories; `tuples` and `contents` hold the writes that the tuple
-- store and the memory backend accepted, in order.
pub record World : Type 0 where
  pub tick : ℕ
  pub journal : List AuditEvent
  pub approvals : Dict ApprovalRequest
  pub mandates : Dict Mandate
  pub revoked : Dict (String × ℤ)
  pub ledger : Dict MemoryRecord
  pub tuples : List TupleWrite
  pub contents : List ContentWrite

abbrev pub empty : World
empty = record {
  tick = 0;
  journal = [];
  approvals = [];
  mandates = [];
  revoked = [];
  ledger = [];
  tuples = [];
  contents = [];
}

-- The engine may answer by the state at the time of the call, or raise; it changes nothing here.
-- `refuses` says with which exception, if any, the sink meets an event. `clock`, `uuid` and
-- `elapsed_ms` are the readings in the order in which they are made.
pub record Env (Args : Type 0) : Type 0 where
  pub clock : ℕ → ℤ
  pub uuid : ℕ → String
  pub elapsed_ms : ℕ → ℕ
  pub refuses : World → AuditEvent → Option Exception
  pub check : World → String → String → String → Result Bool
  pub batch_check : World → String → List (String × String) → Result (List Bool)
  pub policy : Option (Policy Args)
  pub no_args : Args
  pub hash_json : Args → String

-- A method of a service: what was written before a raise stays written.
abbrev pub Exec : Type 0 → Type 0
Exec A = World → Result A × World

module _ {A : Type 0} where
  unfoldable pub pure : A → Exec A
  pure a w = (ok a, w)

  unfoldable pub lift : Result A → Exec A
  lift r w = (r, w)

  unfoldable pub gets : (World → A) → Exec A
  gets f w = (ok (f w), w)

unfoldable pub modify : (World → World) → Exec (Unit {0})
modify f w = (ok tt, f w)

abbrev pub ticked : World → World
ticked w = record w { tick = w.tick + 1 }

module _ {Args : Type 0} (env : Env Args) where
  -- `clock.now()`, `uuid.uuid4().hex` and the time since `started`.
  unfoldable pub now : Exec ℤ
  now w = (ok (env.clock w.tick), ticked w)

  unfoldable pub uuid4 : Exec String
  uuid4 w = (ok (env.uuid w.tick), ticked w)

  unfoldable pub elapsed : Exec ℕ
  elapsed w = (ok (env.elapsed_ms w.tick), ticked w)

  -- `AuditSink.record`.
  unfoldable pub record_event : AuditEvent → Exec (Unit {0})
  record_event event w = elim (env.refuses w event) [
    | none ↦ (ok tt, record w { journal = w.journal ++ event ∷ [] })
    | some e ↦ (err e, w)
  ]

module _ {A B : Type 0} where
  abbrev pub continue : Result A → (A → Exec B) → Exec B
  continue (ok a) f w = f a w
  continue (err e) f w = (err e, w)

  infixl 5 ◌>>=◌ ◌>>◌
  -- Opening this opens every step above but `record_event`.
  unfoldable pub ◌>>=◌ : Exec A → (A → Exec B) → Exec B
  unfolding pure lift gets modify now uuid4 elapsed
  ◌>>=◌ m f w = let (r, w') = m w in continue r f w'

  abbrev pub ◌>>◌ : Exec A → Exec B → Exec B
  m >> k = m >>= λ _. k
