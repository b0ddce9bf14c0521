-- ===== src/Policy/Engine/Retry.antt =====
-- The retry loop of `_call_opa`.
use mathlib.Core.Path.{subst}
use acr_framework.Prelude.{
  inl, inr, ◌⊎◌, Bool-cases, ltb, ℕ, zero, suc, ◌≤◌, ◌<◌, ◌≡◌, refl, Option, List, [], ◌∷◌, arith,
}
use acr_framework.Errors.{ok, err, policy_engine, unexpected}
use acr_framework.Policy.Engine.{
  OpaResult, Reply, response, answer, retry, crash, Attempt, attempt_of, call_from, call_opa,
}

-- The delays before attempt n, in milliseconds.
abbrev pub delays : ℕ → List ℕ
delays zero = []
delays (suc zero) = 50 ∷ []
delays (suc (suc n)) = 50 ∷ 100 ∷ []

-- The answer of the first attempt that is not to be retried is returned, after the back-off of the
-- attempts before it, if that attempt is one of the first three.
pub call_opa_first :
    (post : ℕ → Reply) (n : ℕ) (body : Option OpaResult)
    → n < 3
    → ((m : ℕ) → m < n → attempt_of (post m) ≡ retry)
    → attempt_of (post n) ≡ answer body
    → call_opa post ≡ (ok body, delays n)
unfolding call_opa
call_opa_first post zero body lt before now = rw (now, call_from) refl
call_opa_first post (suc zero) body lt before now = rw (before 0 (omega arith), now, call_from) refl
call_opa_first post (suc (suc zero)) body lt before now =
    rw (before 0 (omega arith), before 1 (omega arith), now, call_from) refl
call_opa_first post (suc (suc (suc n))) body lt before now = absurd (omega arith)

-- After three attempts that are to be retried the call fails with PolicyEngineError, whatever the
-- further replies; it has slept 50 and 100 milliseconds.
pub call_opa_exhausted :
    (post : ℕ → Reply)
    → ((m : ℕ) → m < 3 → attempt_of (post m) ≡ retry)
    → call_opa post ≡ (err policy_engine, 50 ∷ 100 ∷ [])
unfolding call_opa
call_opa_exhausted post all =
    rw (all 0 (omega arith), all 1 (omega arith), all 2 (omega arith), call_from) refl

-- A reply that is a success and no JSON is not caught.
call_opa_crash :
    (post : ℕ → Reply) (n : ℕ)
    → n < 3
    → ((m : ℕ) → m < n → attempt_of (post m) ≡ retry)
    → attempt_of (post n) ≡ crash
    → call_opa post ≡ (err unexpected, delays n)
unfolding call_opa
call_opa_crash post zero lt before now = rw (now, call_from) refl
call_opa_crash post (suc zero) lt before now = rw (before 0 (omega arith), now, call_from) refl
call_opa_crash post (suc (suc zero)) lt before now =
    rw (before 0 (omega arith), before 1 (omega arith), now, call_from) refl
call_opa_crash post (suc (suc (suc n))) lt before now = absurd (omega arith)

-- The outcome of a call that the attempt n decides.
pub Ends : (ℕ → Reply) → ℕ → Type 0
Ends post n =
    ((body : Option OpaResult) × (attempt_of (post n) ≡ answer body)
      × (call_opa post ≡ (ok body, delays n)))
    ⊎ ((attempt_of (post n) ≡ crash) × (call_opa post ≡ (err unexpected, delays n)))

pub AllRetried : (ℕ → Reply) → ℕ → Type 0
AllRetried post n = (m : ℕ) → m < n → attempt_of (post m) ≡ retry

one_more :
    (post : ℕ → Reply) (n : ℕ)
    → AllRetried post n
    → attempt_of (post n) ≡ retry
    → AllRetried post (suc n)
unfolding AllRetried
one_more post n before now m lt = elim (Bool-cases (ltb m n)) [
  | inl e ↦ before m (ground arith)
  | inr e ↦ subst (λ k. attempt_of (post k) ≡ retry) (the_last (ground arith)) now
]
  where
    the_last : n ≤ m → n ≡ m
    the_last h = omega arith

decided :
    (post : ℕ → Reply) (n : ℕ) (a : Attempt)
    → n < 3
    → AllRetried post n
    → attempt_of (post n) ≡ a
    → Ends post n ⊎ (attempt_of (post n) ≡ retry)
unfolding AllRetried Ends
decided post n (answer body) lt before now =
    inl (inl (body, now, call_opa_first post n body lt before now))
decided post n crash lt before now = inl (inr (now, call_opa_crash post n lt before now))
decided post n retry lt before now = inr now

first_end :
    (post : ℕ → Reply) (n : ℕ)
    → n ≤ 3
    → ((k : ℕ) × (k < 3) × AllRetried post k × Ends post k) ⊎ AllRetried post n
unfolding AllRetried
first_end post zero le = inr (λ m lt. absurd (omega arith))
first_end post (suc n) le = elim (first_end post n (omega arith)) [
  | inl found ↦ inl found
  | inr before ↦ elim (decided post n (attempt_of (post n)) (omega arith) before refl) [
    | inl ends ↦ inl (n, omega arith, before, ends)
    | inr now ↦ inr (one_more post n before now)
  ]
]

-- The loop ends within three attempts, whatever the replies are: the first attempt that is not to be
-- retried decides, by its answer or by an error that is not caught, after the back-off of the attempts
-- before it; where all three are to be retried the call fails with PolicyEngineError, and has slept 50
-- and 100 milliseconds.
pub call_opa_lem :
    (post : ℕ → Reply)
    → ((n : ℕ) × (n < 3) × AllRetried post n × Ends post n)
      ⊎ (AllRetried post 3 × (call_opa post ≡ (err policy_engine, 50 ∷ 100 ∷ [])))
unfolding AllRetried
call_opa_lem post = elim (first_end post 3 (omega arith)) [
  | inl found ↦ inl found
  | inr all ↦ inr (all, call_opa_exhausted post all)
]

zero_of : (m : ℕ) → m < 1 → m ≡ 0
zero_of m lt = omega arith

client_error_is_retry :
    (s : ℕ) (body : Option OpaResult) → 400 ≤ s → s < 500 → attempt_of (response s body) ≡ retry
unfolding attempt_of
client_error_is_retry s body lo hi = ground arith

-- A client error is not given up on: when the first reply has a status from 400 to 499, the call goes
-- on, and the answer of the second attempt is returned.
pub client_error_retried :
    (post : ℕ → Reply) (s : ℕ) (body body' : Option OpaResult)
    → 400 ≤ s
    → s < 500
    → post 0 ≡ response s body
    → attempt_of (post 1) ≡ answer body'
    → call_opa post ≡ (ok body', 50 ∷ [])
client_error_retried post s body body' lo hi first second =
    call_opa_first post 1 body' (omega arith) before second
  where
    before : (m : ℕ) → m < 1 → attempt_of (post m) ≡ retry
    before m lt = rw (zero_of m lt, first) (client_error_is_retry s body lo hi)
