-- ===== src/Gateway/Gates.antt =====
-- gateway/router.py: the checks before the policy engine is asked.
pub mod Counter
use acr_framework.Prelude.{
  ℕ, zero, suc, ◌+◌, ◌*◌, ◌/◌, String, Bool, true, false, not, Option, none, some, List, [], ◌∷◌,
  ltb, eqb, ◌==◌, if◌then◌else◌, contains, get_or,
}
use acr_framework.Errors.{Result, ok, err, unexpected, runtime_control_dependency}
use acr_framework.Exec.{Exec}
use acr_framework.Redis.{Redis, Entry, live, put₂}
use acr_framework.Gateway.Outside.{
  Settings, fail_closed, Site, isolate_read, restrict_read, throttle_read, rate_count, Fault, works,
  first_fails, second_fails, is_fault, Outside, minute_of,
}

-- What the containment keys say: go on with a share of the rate limit, one of two answers, or a read
-- that raised.
pub data Gate : Type 0 where
  pass : ℕ → Gate
  isolated restricted broken : Gate

abbrev pub is_isolated : Option String → Bool
is_isolated none = false
is_isolated (some v) = v == "1"

abbrev pub is_restricted : Option (List String) → String → Bool
is_restricted none tool = false
is_restricted (some tools) tool = not (contains tool tools)

-- Step [1b]: isolation, then restriction, then the throttle.
pub containment_gate : Outside → String → String → Redis → Gate
containment_gate env a tool r =
    if not env.connected
    then pass 100
    else if is_fault (env.fault isolate_read)
    then broken
    else if is_isolated (live (env.clock isolate_read) (r.isolate a))
    then isolated
    else if is_fault (env.fault restrict_read)
    then broken
    else if is_restricted (live (env.clock restrict_read) (r.restrict a)) tool
    then restricted
    else if is_fault (env.fault throttle_read)
    then broken
    else pass (get_or (live (env.clock throttle_read) (r.throttle a)) 100)

-- INCR: a key that is absent starts at 0 with no TTL.
count_up : ℕ → Option (Entry ℕ) → Entry ℕ
count_up now e = elim (live now e) [
  | none ↦ record { value = 1; expires = none }
  | some v ↦ elim e [
    | none ↦ record { value = 1; expires = none }
    | some old ↦ record { value = v + 1; expires = old.expires }
  ]
]

write_rate : String → ℕ → Entry ℕ → Redis → Redis
write_rate a minute e r = record r { rate = put₂ a minute (some e) r.rate }

-- Where the counter cannot be used: an error if the program fails closed, and 0 elsewhere.
uncounted : Settings → Result ℕ
uncounted c = if fail_closed c then err runtime_control_dependency else ok 0

count_at : Settings → Fault → ℕ → String → Exec Redis ℕ
unfolding uncounted count_up write_rate
count_at c works now a r =
    let e = count_up now (r.rate a (minute_of now)) in
    (ok e.value, write_rate a (minute_of now) (record e { expires = some (now + 120) }) r)
count_at c first_fails now a r = (uncounted c, r)
count_at c second_fails now a r =
    (uncounted c, write_rate a (minute_of now) (count_up now (r.rate a (minute_of now))) r)

-- `_get_rate_count`
unfoldable pub get_rate_count : Settings → Outside → String → Exec Redis ℕ
unfolding count_at
get_rate_count c env a r =
    if not env.connected
    then (uncounted c, r)
    else count_at c (env.fault rate_count) (env.clock rate_count) a r

-- `int(server_count * (100 / pct))` where the limit is throttled, in exact arithmetic: the percentage
-- that is written is 50, for which the floats of the source are exact too. Division by 0 raises.
unfoldable pub effective_count : ℕ → ℕ → Result ℕ
effective_count pct count =
    if ltb pct 100 then (if eqb pct 0 then err unexpected else ok (count * 100 / pct)) else ok count
