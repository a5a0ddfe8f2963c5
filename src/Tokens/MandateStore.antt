-- ===== src/Tokens/MandateStore.antt =====
-- tokens/mandates.py, InMemoryMandateStore: each method is one step, since it holds the lock.
use headofcontext.Prelude.{
  String, Bool, ◌&&◌, Option, List, [], ◌∷◌, map, filter, lookup, insert, contains, values, Dict,
  ◌==◌, if◌then◌else◌,
}
use headofcontext.Prelude.Int.{ℤ, ltb_ℤ, leb_ℤ}
use headofcontext.Core.Errors.{ok, raised, mandate_store_unavailable}
use headofcontext.Tokens.Mandate.{Mandate, MandateStatus, is_active}
use headofcontext.World.{Exec}

unfoldable pub create : Mandate → Exec (Unit {0})
create mandate w =
    if contains mandate.mandate_id w.mandates
    then (raised mandate_store_unavailable, w)
    else (ok tt, record w { mandates = insert mandate.mandate_id mandate w.mandates })

unfoldable pub get : String → Exec (Option Mandate)
get mandate_id w = (ok (lookup mandate_id w.mandates), w)

unfoldable pub update : Mandate → Exec (Unit {0})
update mandate w =
    if contains mandate.mandate_id w.mandates
    then (ok tt, record w { mandates = insert mandate.mandate_id mandate w.mandates })
    else (raised mandate_store_unavailable, w)

-- `sorted(..., key=lambda m: m.created_at)`, which keeps the order of equal keys.
abbrev pub insert_by_created : Mandate → List Mandate → List Mandate
insert_by_created m [] = m ∷ []
insert_by_created m (n ∷ rest) =
    let later = insert_by_created m rest in
    if ltb_ℤ n.created_at m.created_at then n ∷ later else m ∷ n ∷ rest

abbrev pub sorted_by_created : List Mandate → List Mandate
sorted_by_created [] = []
sorted_by_created (m ∷ rest) = insert_by_created m (sorted_by_created rest)

unfoldable pub list_for : String → Exec (List Mandate)
list_for subject w =
    (ok (sorted_by_created (filter (λ (m : Mandate). m.subject == subject) (values w.mandates))), w)

abbrev pub is_over : ℤ → Mandate → Bool
is_over now m = is_active m.status && leb_ℤ m.expires_at now

-- `for m in expired: self._rows[m.mandate_id] = m`.
unfoldable pub store_all : List Mandate → Dict Mandate → Dict Mandate
store_all [] rows = rows
store_all (m ∷ rest) rows = store_all rest (insert m.mandate_id m rows)

unfoldable pub expire_active : ℤ → Exec (List Mandate)
unfolding store_all
expire_active now w =
    let over : List Mandate =
      map (λ (m : Mandate). record m { status = MandateStatus.expired })
        (filter (is_over now) (values w.mandates)) in
    (ok over, record w { mandates = store_all over w.mandates })
