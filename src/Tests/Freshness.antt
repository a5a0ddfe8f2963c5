-- ===== src/Tests/Freshness.antt =====
-- The freshness guard at concrete states.
use headofcontext.Prelude.{
  ◌≡◌, refl, ◌↔◌, ◌⊎◌, String, true, false, some, [], ◌∷◌, Member, contains, lookup, insert,
}
use headofcontext.Prelude.Int.{ℤ, pos, ltb_ℤ, ◌-ℤ◌}
use headofcontext.Core.Errors.{ok, raised, connector_stale}
use headofcontext.Engines.{ConnectorState, datetime_min, register, mark_synced, assert_fresh}
use headofcontext.Engines.Laws.{IsFresh, assert_fresh_iff, register_stale}

-- Registering keeps the time of a connector that synced.
abbrev synced : ConnectorState
synced = register "files" (mark_synced "files" (some (pos 5)) (pos 0) [])

synced_state : synced ≡ ("files", pos 5) ∷ []
unfolding register mark_synced insert lookup
synced_state = refl

abbrev GuardPasses : ConnectorState → Type 0
GuardPasses state =
    ((assert_fresh (pos 10) (pos 15) state ≡ ok tt)
      ↔ ((entry : String × ℤ) → Member entry state → IsFresh (pos 10) (pos 15) entry))
    × ((assert_fresh (pos 10) (pos 15) state ≡ ok tt)
        ⊎ (assert_fresh (pos 10) (pos 15) state ≡ raised connector_stale))

assert_fresh_iff_example : GuardPasses (("files", pos 5) ∷ [])
assert_fresh_iff_example = assert_fresh_iff (pos 10) (pos 15) (("files", pos 5) ∷ [])

wiki_is_new : contains "wiki" (("files", pos 5) ∷ []) ≡ false
unfolding lookup
wiki_is_new = refl

never_is_old : ltb_ℤ (pos 10) (pos 15 -ℤ datetime_min) ≡ true
unfolding ◌-ℤ◌
never_is_old = refl

register_stale_example :
    assert_fresh (pos 10) (pos 15) (register "wiki" (("files", pos 5) ∷ []))
    ≡ raised connector_stale
register_stale_example =
    register_stale "wiki" (pos 10) (pos 15) (("files", pos 5) ∷ []) wiki_is_new never_is_old
