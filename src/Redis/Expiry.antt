-- ===== src/Redis/Expiry.antt =====
-- How long a value set with a TTL can be read.
use acr_framework.Prelude.{ℕ, ◌+◌, ◌≡◌, none, some, arith, ltb, if◌then◌else◌}
use acr_framework.Redis.{live, set_ex}

-- `SETEX` at a time makes the value readable for exactly `ttl` seconds.
pub live-set_ex :
    {A : Type 0} (now later ttl : ℕ) (v : A)
    → live later (set_ex now ttl v) ≡ (if ltb later (now + ttl) then some v else none)
live-set_ex now later ttl v = ground arith
