-- ===== src/Gateway/DriftTasks/Due.antt =====
-- How often the checks of an agent are due.
use acr_framework.Prelude.{
  ◌≡◌, ◌≤◌, ◌<◌, refl, ℕ, zero, suc, ◌+◌, ◌%◌, eqb, String, Bool, true, false, ◌||◌, some, List, [],
  ◌∷◌, arith, length, str_refl,
}
use acr_framework.Redis.{Redis}
use acr_framework.Gateway.DriftTasks.{TaskOutside, incr, should_run_drift_check}

-- Redis is there, and both of its commands work.
unfoldable pub IsUp : TaskOutside → Type 0
IsUp o = (o.env.connected ≡ true) × (o.incr_fails ≡ false) × (o.expire_fails ≡ false)

-- Requests of which each comes within an hour of the one before it.
unfoldable pub Hourly : TaskOutside → List TaskOutside → Type 0
Hourly o [] = Unit
Hourly o (next ∷ rest) = IsUp next × (next.env.now < o.env.now + 3600) × Hourly next rest

-- Whether a check is due at one of the requests of an agent.
pub comes_due : List TaskOutside → String → Redis → Bool
comes_due [] a r = false
comes_due (o ∷ rest) a r =
    let later = comes_due rest a (should_run_drift_check o a r).1 in
    (should_run_drift_check o a r).0 || later

value_at : TaskOutside → String → Redis → ℕ
unfolding incr
value_at o a r = (incr o.env.now (r.drift_counter a)).value

counted :
    (o : TaskOutside) (a : String) (r : Redis)
    → IsUp o
    → ((should_run_drift_check o a r).0 ≡ eqb (value_at o a r % 10) 0)
      × ((should_run_drift_check o a r).1.drift_counter a
          ≡ some (record { value = value_at o a r; expires = some (o.env.now + 3600) }))
unfolding should_run_drift_check IsUp value_at
counted o a r (up, first, second) =
    rw (should_run_drift_check, up, first, second, str_refl a) (refl, refl)

incr_live :
    (now t k : ℕ)
    → now < t
    → (incr now (some (record { value = k; expires = some t }))).value ≡ suc k
unfolding incr
incr_live now t k soon = ground arith

next_value :
    (o next : TaskOutside) (a : String) (r : Redis)
    → IsUp o
    → next.env.now < o.env.now + 3600
    → value_at next a (should_run_drift_check o a r).1 ≡ suc (value_at o a r)
unfolding value_at
next_value o next a r up soon =
    rw (value_at, (counted o a r up).1)
      (incr_live next.env.now (o.env.now + 3600) (value_at o a r) soon)

round : (k m : ℕ) → m < 10 → (k + m) % 10 ≡ 0 → (m' : ℕ) × (m' < 10) × ((suc k + m') % 10 ≡ 0)
round k zero lt e = (9, omega arith, omega arith)
round k (suc m) lt e = (m, omega arith, omega arith)

within : (k : ℕ) → (m : ℕ) × (m < 10) × ((k + m) % 10 ≡ 0)
within zero = (0, omega arith, refl)
within (suc k) = let (m, lt, e) = within k in round k m lt e

or_later : (x : Bool) {y : Bool} → y ≡ true → x || y ≡ true
or_later x h = ground arith

first_due : {x : Bool} (y : Bool) (v : ℕ) → x ≡ eqb (v % 10) 0 → v % 10 ≡ 0 → x || y ≡ true
first_due y v h e = ground arith

due_by :
    (o : TaskOutside) (rest : List TaskOutside) (a : String) (r : Redis) (m : ℕ)
    → IsUp o
    → Hourly o rest
    → (value_at o a r + m) % 10 ≡ 0
    → m < length (o ∷ rest)
    → comes_due (o ∷ rest) a r ≡ true
unfolding comes_due Hourly
due_by o rest a r zero up hourly e lt =
    first_due (comes_due rest a (should_run_drift_check o a r).1) (value_at o a r)
      (counted o a r up).0 (omega arith)
due_by o [] a r (suc m) up hourly e lt = absurd (omega arith)
due_by o (next ∷ rest) a r (suc m) up (up', soon, hourly) e lt =
    let later =
      due_by next rest a (should_run_drift_check o a r).1 m up' hourly
        (rw (next_value o next a r up soon) (omega arith)) (omega arith) in
    or_later (should_run_drift_check o a r).0 later

-- A check comes due within ten requests of an agent, if Redis works and none of them comes an hour or
-- more after the one before it, whatever the counter was.
pub check_due_in_ten :
    (o : TaskOutside) (rest : List TaskOutside) (a : String) (r : Redis)
    → IsUp o
    → Hourly o rest
    → 10 ≤ length (o ∷ rest)
    → comes_due (o ∷ rest) a r ≡ true
check_due_in_ten o rest a r up hourly long =
    let (m, soon, round_number) = within (value_at o a r) in
    due_by o rest a r m up hourly round_number (omega arith)
