-- ===== src/Redis.antt =====
-- The state of the Redis server, by the key schema of the program (common/redis_client.py and the
-- key prefixes of the modules that use it). A prefix and its agent, and the fixed-width time bucket
-- where there is one, determine the key, so each prefix is a map of its own.
pub mod Expiry
use acr_framework.Prelude.{
  ℕ, ◌+◌, String, Bool, true, false, Option, none, some, List, ◌==◌, leb, eqb, ◌&&◌, if◌then◌else◌,
}
use acr_framework.Prelude.Int.{ℤ}

-- A value with the second at which its key expires, if it has a TTL.
pub record Entry (A : Type 0) : Type 0 where
  pub value : A
  pub expires : Option ℕ

-- The hash at acr:kill:{agent_id}.
pub record KillEntry : Type 0 where
  pub is_killed : String
  pub reason : String
  pub killed_at : String
  pub killed_by : String

pub record Redis : Type 0 where
  pub kill : String → Option KillEntry
  pub throttle : String → Option (Entry ℕ)
  pub restrict : String → Option (Entry (List String))
  pub isolate : String → Option (Entry String)
  pub rate : String → ℕ → Option (Entry ℕ)
  pub spend : String → ℕ → Option (Entry ℤ)
  pub drift_score : String → Option (Entry ℤ)
  pub drift_counter : String → Option (Entry ℕ)
  pub token_rate : String → Option (Entry ℕ)

module _ {A : Type 0} where
  -- GET and its like: a key whose time has come is absent.
  abbrev pub live : ℕ → Option (Entry A) → Option A
  live now none = none
  live now (some e) = elim e.expires [
    | none ↦ some e.value
    | some t ↦ if leb t now then none else some e.value
  ]

  -- SETEX key ttl value
  abbrev pub set_ex : ℕ → ℕ → A → Option (Entry A)
  set_ex now ttl v = some (record { value = v; expires = some (now + ttl) })

module _ {V : Type 0} where
  -- A write at one key.
  abbrev pub put : String → V → (String → V) → String → V
  put k v m j = if k == j then v else m j

  abbrev pub put₂ : String → ℕ → V → (String → ℕ → V) → String → ℕ → V
  put₂ k b v m j c = if k == j && eqb b c then v else m j c
