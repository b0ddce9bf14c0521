-- ===== src/Gateway/Spend.antt =====
-- gateway/spend_control.py: the cost of an action and the hourly ledger. Amounts are integers, in
-- millionths of a dollar, so sums are exact.
pub mod Ledger
use acr_framework.Prelude.{
  ℕ, zero, suc, ◌+◌, ◌*◌, ◌/◌, ◌%◌, String, Bool, true, false, not, ◌||◌, Option, none, some, List,
  [], ◌∷◌, ltb, eqb, ◌==◌, if◌then◌else◌, get_or,
}
use acr_framework.Prelude.Int.{ℤ, pos, negsuc, ◌+ℤ◌, ◌-ℤ◌}
use acr_framework.Errors.{
  AcrError, Result, ok, err, authoritative_spend_control, runtime_control_dependency,
}
use acr_framework.Exec.{Exec}
use acr_framework.Redis.{Redis, Entry, live, put₂}
use acr_framework.Identity.Models.{AgentBoundaries}
use acr_framework.Gateway.Outside.{
  Settings, is_development, fail_closed, Site, spend_read, spend_charge, spend_refund, Fault, works,
  first_fails, second_fails, is_fault, Outside, hour_of,
}

-- A lookup in `tool_costs_usd`.
pub cost_of : String → List (String × ℤ) → Option ℤ
cost_of tool [] = none
cost_of tool ((t, c) ∷ rest) = if t == tool then some c else cost_of tool rest

unfoldable pub resolve_action_cost_usd : Settings → AgentBoundaries → String → Result ℤ
unfolding cost_of
resolve_action_cost_usd c b tool = elim (cost_of tool b.tool_costs_usd) [
  | some cost ↦ ok cost
  | none ↦ elim b.default_action_cost_usd [
    | some cost ↦ ok cost
    | none ↦ if is_development c then ok (pos 0) else err authoritative_spend_control
  ]
]

-- To the nearest hundred, and to the even one of two.
round_hundred : ℕ → ℕ
round_hundred n =
    let q = n / 100 in
    if ltb (n % 100) 50
    then q * 100
    else if ltb 50 (n % 100)
    then (q + 1) * 100
    else if eqb (q % 2) 0
    then q * 100
    else (q + 1) * 100

abbrev negate : ℕ → ℤ
negate zero = pos 0
negate (suc n) = negsuc n

-- `round(x, 4)` of an exact amount, half to even; the source rounds the nearest binary float, which
-- may fall on the other side of a tie.
pub round4 : ℤ → ℤ
unfolding round_hundred
round4 (pos n) = pos (round_hundred n)
round4 (negsuc n) = negate (round_hundred (suc n))

-- What the ledger shows for an agent and an hour; an absent key counts as 0.
pub ledger : ℕ → String → ℕ → Redis → ℤ
ledger now a hour r = get_or (live now (r.spend a hour)) (pos 0)

-- Without Redis, or when the read fails.
unavailable : Settings → ℤ → Result ℤ
unfolding fail_closed
unavailable c cost = if fail_closed c then err runtime_control_dependency else ok (round4 cost)

pub projected_spend : Settings → Outside → String → ℤ → Redis → Result ℤ
unfolding ledger unavailable
projected_spend c env a cost r =
    let now = env.clock spend_read in
    if not env.connected || is_fault (env.fault spend_read)
    then unavailable c cost
    else ok (round4 (ledger now a (hour_of now) r +ℤ cost))

-- INCRBYFLOAT: a key that is absent starts at 0 with no TTL; else the TTL stays.
incr_by : ℕ → ℤ → Option (Entry ℤ) → Entry ℤ
incr_by now delta e = elim (live now e) [
  | none ↦ record { value = delta; expires = none }
  | some v ↦ elim e [
    | none ↦ record { value = delta; expires = none }
    | some old ↦ record { value = v +ℤ delta; expires = old.expires }
  ]
]

-- EXPIRE key 7200
expire_in : ℕ → Entry ℤ → Entry ℤ
expire_in now e = record e { expires = some (now + 7200) }

write_spend : String → ℕ → Entry ℤ → Redis → Redis
write_spend a hour e r = record r { spend = put₂ a hour (some e) r.spend }

abbrev pub is_zero : ℤ → Bool
is_zero (pos n) = eqb n 0
is_zero (negsuc n) = false

-- A failure is an error where the program fails closed, and passed over elsewhere.
failed : Settings → Result (Unit {0})
unfolding fail_closed
failed c = if fail_closed c then err runtime_control_dependency else ok tt

pub adjust_at : Settings → Fault → ℕ → String → ℤ → Exec Redis (Unit {0})
unfolding failed incr_by expire_in write_spend
adjust_at c works now a delta r = (
  ok tt,
  write_spend a (hour_of now) (expire_in now (incr_by now delta (r.spend a (hour_of now)))) r,
)
adjust_at c first_fails now a delta r = (failed c, r)
adjust_at c second_fails now a delta r =
    (failed c, write_spend a (hour_of now) (incr_by now delta (r.spend a (hour_of now))) r)

-- `adjust_authoritative_spend`, from the place of the charge or of the refund.
unfoldable pub adjust_spend : Settings → Outside → Site → String → ℤ → Exec Redis (Unit {0})
unfolding adjust_at
adjust_spend c env site a delta r =
    if is_zero delta
    then (ok tt, r)
    else if not env.connected
    then (failed c, r)
    else adjust_at c (env.fault site) (env.clock site) a delta r
