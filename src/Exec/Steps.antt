-- ===== src/Exec/Steps.antt =====
-- A chain that succeeds, taken apart.
use mathlib.Core.Path.{◌≡◌, refl}
use acr_framework.Errors.{Result, ok, err}
use acr_framework.Exec.{Exec, continue, ◌>>=◌}

module _ {S V W : Type 0} where
  continue-eq-ok :
      (r : Result V) (f : V → Exec S W) (s s' : S) (w : W)
      → continue r f s ≡ (ok w, s')
      → (v : V) × (r ≡ ok v) × (f v s ≡ (ok w, s'))
  continue-eq-ok (ok v) f s s' w h = (v, refl, h)
  continue-eq-ok (err e) f s s' w h = absurd cc

  pub bind-eq-ok :
      (m : Exec S V) (f : V → Exec S W) (s s' : S) (w : W)
      → (m >>= f) s ≡ (ok w, s')
      → (v : V) × ((m s).0 ≡ ok v) × (f v (m s).1 ≡ (ok w, s'))
  bind-eq-ok m f s s' w h = continue-eq-ok (m s).0 f (m s).1 s' w h
