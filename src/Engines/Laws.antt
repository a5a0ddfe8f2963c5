-- ===== src/Engines/Laws.antt =====
-- The guard passes exactly when every registered connector synced in time.
use headofcontext.Prelude.{
  ◌≡◌, refl, subst, ◌↔◌, ◌⊎◌, inl, inr, String, true, false, [], ◌∷◌, Dict, lookup, insert,
  contains, Bool-cases, Member, here, there, ◌==◌, arith,
}
use headofcontext.Prelude.Int.{ℤ, ltb_ℤ, ◌-ℤ◌}
use headofcontext.Core.Errors.{ok, raised, connector_stale}
use headofcontext.Engines.{ConnectorState, datetime_min, register, assert_fresh}

-- The connector's last sync is recent enough.
abbrev pub IsFresh : ℤ → ℤ → String × ℤ → Type 0
IsFresh max_staleness now (connector, last) = ltb_ℤ max_staleness (now -ℤ last) ≡ false

-- The guard passes exactly when no registered connector's last sync is older than allowed; else it
-- raises ConnectorStale.
pub assert_fresh_iff :
    (max_staleness now : ℤ) (state : ConnectorState)
    → ((assert_fresh max_staleness now state ≡ ok tt)
        ↔ ((entry : String × ℤ) → Member entry state → IsFresh max_staleness now entry))
      × ((assert_fresh max_staleness now state ≡ ok tt)
          ⊎ (assert_fresh max_staleness now state ≡ raised connector_stale))
unfolding assert_fresh
assert_fresh_iff max_staleness now [] = ((λ h entry m. elim m [ ], λ h. refl), inl refl)
assert_fresh_iff max_staleness now ((c, last) ∷ rest) =
    let (both, either) = assert_fresh_iff max_staleness now rest in
    elim (Bool-cases (ltb_ℤ max_staleness (now -ℤ last))) [
      | inl stale ↦ rw stale (
        (λ h entry m. absurd (ground arith), λ h. absurd (ground (arith, h (c, last) (here refl)))),
        inr refl,
      )
      | inr fresh ↦ rw fresh (
        (
          λ h entry m. elim m [
            | here e ↦ subst (IsFresh max_staleness now) e fresh
            | there n ↦ both.0 h entry n
          ],
          λ h. both.1 (λ entry m. h entry (there m)),
        ),
        either,
      )
    ]

insert-Member :
    {V : Type 0} (k : String) (v : V) (d : Dict V)
    → contains k d ≡ false
    → Member (k, v) (insert k v d)
unfolding insert lookup
insert-Member k v [] h = here refl
insert-Member k v ((j, w) ∷ d) h = elim (Bool-cases (j == k)) [
  | inl same ↦ absurd (ground arith)
  | inr differ ↦ rw differ (there (insert-Member k v d (ground arith)))
]

-- A connector that was registered and never synced keeps the guard from passing, once the allowed
-- staleness is less than the time since `datetime.min`.
pub register_stale :
    (connector : String) (max_staleness now : ℤ) (state : ConnectorState)
    → contains connector state ≡ false
    → ltb_ℤ max_staleness (now -ℤ datetime_min) ≡ true
    → assert_fresh max_staleness now (register connector state) ≡ raised connector_stale
unfolding register
register_stale connector max_staleness now state new old =
    let grown = insert connector datetime_min state in
    let (both, either) = assert_fresh_iff max_staleness now grown in
    rw new (elim either [
      | inr raises ↦ raises
      | inl passes ↦
          let fresh =
            both.0 passes (connector, datetime_min)
              (insert-Member connector datetime_min state new) in
          absurd (ground arith)
    ])
