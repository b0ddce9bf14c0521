-- ===== src/Errors/Steps.antt =====
-- A chain that succeeds, taken apart.
use mathlib.Core.Path.{◌≡◌, refl}
use mathlib.Core.Bool.{Bool, true, false}
use acr_framework.Errors.{AcrError, Result, ok, err, guard, ◌>>=◌}

module _ {V W : Type 0} where
  pub bind-eq-ok :
      (r : Result V) (k : V → Result W) (w : W)
      → (r >>= k) ≡ ok w
      → (x : V) × (r ≡ ok x) × (k x ≡ ok w)
  bind-eq-ok (ok x) k w h = (x, refl, h)
  bind-eq-ok (err e) k w h = absurd cc

pub guard-eq-ok : (b : Bool) (e : AcrError) → guard b e ≡ ok tt → b ≡ true
guard-eq-ok true e h = refl
guard-eq-ok false e h = absurd cc

pub ok_injective : {V : Type 0} {x y : V} → ok x ≡ ok y → x ≡ y
ok_injective h = cc
