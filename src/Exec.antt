-- ===== src/Exec.antt =====
-- Handlers that change a state and may raise. What was written before an exception stays written, so
-- the state comes back beside the error too.
pub mod Steps
use acr_framework.Errors.{AcrError, Result, ok, err}

abbrev pub Exec : Type 0 → Type 0 → Type 0
Exec S A = S → Result A × S

module _ {S A : Type 0} where
  abbrev pub pure : A → Exec S A
  pure a s = (ok a, s)

  abbrev pub raise : AcrError → Exec S A
  raise e s = (err e, s)

  abbrev pub lift : Result A → Exec S A
  lift r s = (r, s)

  abbrev pub gets : (S → A) → Exec S A
  gets f s = (ok (f s), s)

  abbrev pub modify_state : (S → S) → A → Exec S A
  modify_state f a s = (ok a, f s)

-- A handler and the one that its value decides; after an exception only the state goes on.
module _ {S V W : Type 0} where
  abbrev pub continue : Result V → (V → Exec S W) → Exec S W
  continue (err raised) rest s = (err raised, s)
  continue (ok value) rest s = rest value s

  infixl 5 ◌>>=◌ ◌>>◌
  abbrev pub ◌>>=◌ : Exec S V → (V → Exec S W) → Exec S W
  ◌>>=◌ first rest before = let (outcome, left) = first before in continue outcome rest left

  abbrev pub ◌>>◌ : Exec S V → Exec S W → Exec S W
  first >> second = first >>= (λ _. second)
