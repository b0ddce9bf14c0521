-- ===== src/Gateway/Gates/Counter.antt =====
-- The counter of the actions in a minute, and its scaling where the agent is throttled.
use native.Mathlib.Nat.{mul-le-mul_left, div-mul-le_self, le-div_iff_mul-le, lt-div-mul-add}
use mathlib.Core.Path.{subst}
use acr_framework.Prelude.{
  refl, List, [], ◌∷◌, zero, ltb, Bool-cases, ◌⊎◌, inl, inr, ℕ, String, ◌≡◌, ◌≤◌, ◌<◌, ◌+◌, ◌*◌,
  ◌/◌, true, false, arith, eqb, str_iff, ◌⊎◌,
}
use acr_framework.Errors.{Result, ok}
use acr_framework.Redis.{Redis}
use acr_framework.Gateway.Outside.{Settings, Outside, rate_count, works, minute_of}
use acr_framework.Gateway.Gates.{get_rate_count, effective_count}

-- Counting the action touches nothing but the counter.
pub get_rate_count-spend :
    (c : Settings) (env : Outside) (a : String) (r : Redis)
    → (get_rate_count c env a r).1.spend ≡ r.spend
unfolding get_rate_count
get_rate_count-spend c env a r = ground arith

-- Two actions of one agent in the same minute, with a Redis that works, are counted one after the
-- other, in whatever second of the minute they come.
pub counts_on :
    (c : Settings) (env env' : Outside) (a : String) (r : Redis) (n : ℕ)
    → env.connected ≡ true
    → env'.connected ≡ true
    → env.fault rate_count ≡ works
    → env'.fault rate_count ≡ works
    → env.clock rate_count ≤ env'.clock rate_count
    → minute_of (env.clock rate_count) ≡ minute_of (env'.clock rate_count)
    → (get_rate_count c env a r).0 ≡ ok n
    → (get_rate_count c env' a (get_rate_count c env a r).1).0 ≡ ok (n + 1)
unfolding get_rate_count
counts_on c env env' a r n h h' f f' t m e = ground (arith, str_iff a a)

-- A request that Redis counts.
unfoldable pub IsCounted : Outside → Type 0
IsCounted env = (env.connected ≡ true) × (env.fault rate_count ≡ works)

-- Requests that come one after the other in the minute of the first.
unfoldable pub InOneMinute : Outside → List Outside → Type 0
InOneMinute env [] = Unit
InOneMinute env (next ∷ rest) =
    IsCounted next
    × (env.clock rate_count ≤ next.clock rate_count)
    × (minute_of (env.clock rate_count) ≡ minute_of (next.clock rate_count))
    × InOneMinute next rest

-- What the requests of an agent are counted as.
pub counts : Settings → String → List Outside → Redis → List (Result ℕ)
counts c a [] r = []
counts c a (env ∷ rest) r =
    (get_rate_count c env a r).0 ∷ counts c a rest (get_rate_count c env a r).1

unfoldable pub numbered : ℕ → List Outside → List (Result ℕ)
numbered n [] = []
numbered n (env ∷ rest) = ok n ∷ numbered (n + 1) rest

-- The requests of an agent in one minute, with a Redis that works, are numbered without a gap from the
-- number of the first on, in whatever seconds of the minute they come: none is counted twice and none
-- is missed.
pub counted_in_order :
    (c : Settings) (a : String) (env : Outside) (rest : List Outside) (r : Redis) (n : ℕ)
    → IsCounted env
    → InOneMinute env rest
    → (get_rate_count c env a r).0 ≡ ok n
    → counts c a (env ∷ rest) r ≡ numbered n (env ∷ rest)
unfolding counts numbered InOneMinute IsCounted
counted_in_order c a env [] r n up minute first = rw first refl
counted_in_order c a env (next ∷ rest) r n up (up', later, same, others) first =
    let second = counts_on c env next a r n up.0 up'.0 up.1 up'.1 later same first in
    rw
      (first, counted_in_order c a next rest (get_rate_count c env a r).1 (n + 1) up' others second)
      refl

scaled_up :
    (share count : ℕ)
    → share ≤ 100
    → zero < share
    → (count ≤ count * 100 / share)
      × (count * 100 / share * share ≤ count * 100)
      × (count * 100 < count * 100 / share * share + share)
scaled_up share count h p = (
  (le-div_iff_mul-le p).1 (mul-le-mul_left count h),
  div-mul-le_self (count * 100) share,
  lt-div-mul-add p,
)

-- A throttled agent is counted up: with a share below 100, the count that the policy sees is at
-- least the true one, and is the largest of which that share in a hundred is at most the true one.
-- A share of 100 or more changes nothing.
pub effective_count_lem :
    (share count n : ℕ)
    → effective_count share count ≡ ok n
    → ((100 ≤ share) × (n ≡ count))
      ⊎ ((share < 100)
          × (count ≤ n)
          × (n * share ≤ count * 100)
          × (count * 100 < n * share + share))
unfolding effective_count
effective_count_lem share count n e = elim (Bool-cases (ltb share 100)) [
  | inr h ↦ inl (ground arith, ground arith)
  | inl h ↦ elim (Bool-cases (eqb share 0)) [
    | inl z ↦ absurd (ground arith)
    | inr z ↦
        let scaled =
          subst (λ k. (count ≤ k) × (k * share ≤ count * 100) × (count * 100 < k * share + share))
            (quotient_of h z) (scaled_up share count (ground arith) (ground arith)) in
        inr (ground arith, scaled.0, scaled.1, scaled.2)
  ]
]
  where
    quotient_of : ltb share 100 ≡ true → eqb share 0 ≡ false → count * 100 / share ≡ n
    quotient_of h z = ground arith
