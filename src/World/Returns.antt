-- ===== src/World/Returns.antt =====
-- What a sequence of steps that returned says of its first step.
use headofcontext.Prelude.{◌≡◌, refl, ap, arith}
use headofcontext.Core.Errors.{Result, ok, err}
use headofcontext.World.{World, Exec, pure, lift, gets, ◌>>=◌, continue}

module _ {A B : Type 0} where
  continue_ok :
      (f : A → Exec B) (r : Result A) (u : World) {b : B} {v : World}
      → continue r f u ≡ (ok b, v)
      → (a : A) × (r ≡ ok a) × (f a u ≡ (ok b, v))
  continue_ok f (ok a) u h = (a, refl, h)
  continue_ok f (err e) u h = absurd (ground arith)

  -- The first step returned, and the rest went on from its state.
  pub bind_ok :
      (m : Exec A) (f : A → Exec B) (w : World) {b : B} {v : World}
      → (m >>= f) w ≡ (ok b, v)
      → (a : A) × (u : World) × (m w ≡ (ok a, u)) × (f a u ≡ (ok b, v))
  unfolding ◌>>=◌
  bind_ok m f w h =
      let (a, e, k) = continue_ok f (m w).0 (m w).1 h in
      (a, (m w).1, ap (λ (r : Result A). (r, (m w).1)) e, k)

module _ {A : Type 0} where
  pub pure_ok : (a : A) (w : World) {b : A} {v : World} → pure a w ≡ (ok b, v) → (b ≡ a) × (v ≡ w)
  unfolding pure
  pure_ok a w h = ground arith

  pub lift_ok :
      (r : Result A) (w : World) {b : A} {v : World} → lift r w ≡ (ok b, v) → (r ≡ ok b) × (v ≡ w)
  unfolding lift
  lift_ok r w h = ground arith

  pub gets_ok :
      (f : World → A) (w : World) {b : A} {v : World} → gets f w ≡ (ok b, v) → (b ≡ f w) × (v ≡ w)
  unfolding gets
  gets_ok f w h = ground arith
