-- ===== src/Containment/KillSwitch/Switch.antt =====
-- What the two writing endpoints of the kill switch do to the switch that the gateway reads.
use acr_framework.Prelude.{
  String, ◌≡◌, refl, ◌⊎◌, inl, inr, Bool, true, false, Option, none, some, arith, ◌==◌, str_iff,
  if◌then◌else◌,
}
use acr_framework.Errors.{AcrError, Result, ok, err, same_digest}
use acr_framework.Redis.{Redis, KillEntry, put}
use acr_framework.Containment.KillSwitch.{
  KillState, ServiceConfig, Headers, require_secret, require_operator, redis_client, writer_roles,
  service_kill, named_or, killed_state, entry_of, alive, service_restore, is_agent_killed, flag_set,
  same_digest,
}

-- A request of the service that is let through: its secret is the configured one, and its key belongs
-- to an operator with a role that may write, whose subject is returned.
pub record IsAuthorized (c : ServiceConfig) (h : Headers) : Type 0 where
  pub subject : String
  pub secret_fits : h.secret ≡ some c.secret
  pub operator_fits : require_operator c h writer_roles ≡ ok subject

-- The switch of every agent as the gateway reads it after a request: as before, but for one agent.
abbrev pub Reads : Redis → Redis → String → Bool → Type 0
Reads r r' a flag =
    (j : String)
    → is_agent_killed true false j r' ≡ ok (if a == j then flag else flag_set (r.kill j))

secret_fits_of :
    (c : ServiceConfig) (h : Headers) (o : Option String)
    → h.secret ≡ o
    → require_secret c h ≡ ok tt
    → h.secret ≡ some c.secret
unfolding require_secret same_digest
secret_fits_of c h none p e = ground arith
secret_fits_of c h (some s) p e = ground (arith, str_iff s c.secret)

-- A written flag, as the gateway reads it.
Reads-put :
    (r : Redis) (a : String) (o : Option KillEntry)
    → Reads r (record r { kill = put a o r.kill }) a (flag_set o)
unfolding is_agent_killed
Reads-put r a o j = ground arith

-- POST /acr/kill: either the request is refused or fails and nothing changes, or it is authorised, and
-- from then on the gateway reads the agent as killed, and every other agent as before.
pub service_kill_lem :
    (c : ServiceConfig) (h : Headers) (at a reason : String) (op : Option String) (r : Redis)
    → ((e : AcrError) × (service_kill c h at a reason op r ≡ (err e, r)))
      ⊎ ((s : KillState) × (r' : Redis) × (service_kill c h at a reason op r ≡ (ok s, r'))
          × IsAuthorized c h
          × Reads r r' a true)
unfolding service_kill redis_client
service_kill_lem c h at a reason op r =
    go (require_secret c h) refl (require_operator c h writer_roles) refl (redis_client c) refl
  where
    go :
        (x : Result (Unit {0}))
        → require_secret c h ≡ x
        → (y : Result String) → require_operator c h writer_roles ≡ y
        → (z : Result (Unit {0})) → redis_client c ≡ z
        → ((e : AcrError) × (service_kill c h at a reason op r ≡ (err e, r)))
          ⊎ ((s : KillState) × (r' : Redis) × (service_kill c h at a reason op r ≡ (ok s, r'))
              × IsAuthorized c h
              × Reads r r' a true)
    go (err e) p y q z l = inl (e, rw p refl)
    go (ok _) p (err e) q z l = inl (e, rw (p, q) refl)
    go (ok _) p (ok subject) q (err e) l = inl (e, rw (p, q, l) refl)
    go (ok _) p (ok subject) q (ok _) l =
        let by = named_or op subject in
        inr (
          killed_state a reason at by,
          record r { kill = put a (some (entry_of reason at by)) r.kill },
          rw (p, q, l) refl,
          record {
            subject = subject;
            secret_fits = secret_fits_of c h h.secret refl p;
            operator_fits = q;
          },
          Reads-put r a (some (entry_of reason at by)),
        )

-- POST /acr/kill/restore: either the request is refused or fails and nothing changes, or it is
-- authorised, and from then on the gateway reads the agent as not killed, and every other agent as
-- before.
pub service_restore_lem :
    (c : ServiceConfig) (h : Headers) (a : String) (r : Redis)
    → ((e : AcrError) × (service_restore c h a r ≡ (err e, r)))
      ⊎ ((r' : Redis) × (service_restore c h a r ≡ (ok (alive a), r'))
          × IsAuthorized c h
          × Reads r r' a false)
unfolding service_restore redis_client
service_restore_lem c h a r =
    go (require_secret c h) refl (require_operator c h writer_roles) refl (redis_client c) refl
  where
    go :
        (x : Result (Unit {0}))
        → require_secret c h ≡ x
        → (y : Result String) → require_operator c h writer_roles ≡ y
        → (z : Result (Unit {0})) → redis_client c ≡ z
        → ((e : AcrError) × (service_restore c h a r ≡ (err e, r)))
          ⊎ ((r' : Redis) × (service_restore c h a r ≡ (ok (alive a), r'))
              × IsAuthorized c h
              × Reads r r' a false)
    go (err e) p y q z l = inl (e, rw p refl)
    go (ok _) p (err e) q z l = inl (e, rw (p, q) refl)
    go (ok _) p (ok subject) q (err e) l = inl (e, rw (p, q, l) refl)
    go (ok _) p (ok subject) q (ok _) l = inr (
      record r { kill = put a none r.kill },
      rw (p, q, l) refl,
      record {
        subject = subject;
        secret_fits = secret_fits_of c h h.secret refl p;
        operator_fits = q;
      },
      Reads-put r a none,
    )
