-- ===== src/Engines.antt =====
-- engines/freshness.py, InMemoryConnectorState: stale tuples must not let a decision say ALLOW.
pub mod Laws
use headofcontext.Prelude.{
  String, Bool, not, none, some, List, [], ◌∷◌, Dict, lookup, insert, contains, Option, or_default,
  if◌then◌else◌,
}
use headofcontext.Prelude.Int.{ℤ, negsuc, ltb_ℤ, ◌-ℤ◌}
use headofcontext.Core.Errors.{Result, ok, raised, connector_stale}

-- When each registered connector synced last.
abbrev pub ConnectorState : Type 0
ConnectorState = Dict ℤ

-- `datetime.min`, in microseconds from 1970.
abbrev pub datetime_min : ℤ
datetime_min = negsuc 62135596799999999

-- `setdefault`: a connector that synced keeps its time.
unfoldable pub register : String → ConnectorState → ConnectorState
register connector state =
    if contains connector state then state else insert connector datetime_min state

-- `at or self._clock.now()`.
unfoldable pub mark_synced : String → Option ℤ → ℤ → ConnectorState → ConnectorState
mark_synced connector at now state = insert connector (or_default at now) state

-- The loop stops at the first connector that is too old.
unfoldable pub assert_fresh : ℤ → ℤ → ConnectorState → Result (Unit {0})
assert_fresh max_staleness now [] = ok tt
assert_fresh max_staleness now ((connector, last) ∷ rest) =
    let later = assert_fresh max_staleness now rest in
    if ltb_ℤ max_staleness (now -ℤ last) then raised connector_stale else later
