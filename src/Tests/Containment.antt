-- ===== src/Tests/Containment.antt =====
-- The kill switch and the graduated response of one agent.
use acr_framework.Prelude.{◌≡◌, refl, ◌⊎◌, ◌↔◌, ◌<◌, ◌≤◌, true, false, none, some, [], ◌∷◌, arith}
use acr_framework.Errors.{AcrError, ok, err}
use acr_framework.Redis.{Redis}
use acr_framework.Containment.KillSwitch.{
  KillState, ServiceConfig, Headers, service_kill, service_restore, alive,
}
use acr_framework.Containment.KillSwitch.Switch.{
  IsAuthorized, Reads, service_kill_lem, service_restore_lem,
}
use acr_framework.Containment.Graduated.{
  Surroundings, ContainmentState, tier_for_score, no_tier, throttle, restrict, isolate, kill,
  action_for, apply_graduated_response,
}
use acr_framework.Containment.Graduated.Ladder.{Enforced, tier_bounds, response-Enforced}
use acr_framework.Tests.Fixtures.{empty_redis}

abbrev config : ServiceConfig
config = record {
  secret = "s3cret";
  operators = ("key-1", record { subject = "ann"; roles = "security_admin" ∷ [] }) ∷ [];
  redis_up = true;
}

abbrev headers : Headers
headers = record { secret = some "s3cret"; operator_key = some "key-1" }

service_kill_lem_example :
    ((e : AcrError) × (service_kill config headers "t" "bot" "drift" none empty_redis
        ≡ (err e, empty_redis)))
    ⊎ ((s : KillState) × (r' : Redis) × (service_kill config headers "t" "bot" "drift" none
            empty_redis
          ≡ (ok s, r'))
        × IsAuthorized config headers
        × Reads empty_redis r' "bot" true)
service_kill_lem_example = service_kill_lem config headers "t" "bot" "drift" none empty_redis

service_restore_lem_example :
    ((e : AcrError) × (service_restore config headers "bot" empty_redis ≡ (err e, empty_redis)))
    ⊎ ((r' : Redis) × (service_restore config headers "bot" empty_redis ≡ (ok (alive "bot"), r'))
        × IsAuthorized config headers
        × Reads empty_redis r' "bot" false)
service_restore_lem_example = service_restore_lem config headers "bot" empty_redis

tier_bounds_example :
    ((tier_for_score 7200 ≡ no_tier) ↔ (7200 < 6000))
    × ((tier_for_score 7200 ≡ throttle) ↔ ((6000 ≤ 7200) × (7200 < 7500)))
    × ((tier_for_score 7200 ≡ restrict) ↔ ((7500 ≤ 7200) × (7200 < 9000)))
    × ((tier_for_score 7200 ≡ isolate) ↔ ((9000 ≤ 7200) × (7200 < 9500)))
    × ((tier_for_score 7200 ≡ kill) ↔ (9500 ≤ 7200))
tier_bounds_example = tier_bounds 7200

abbrev pub surroundings : Surroundings
surroundings = record {
  now = 1000;
  connected = true;
  write_fails = false;
  service_up = true;
  service = config;
  headers = headers;
  killed_at = "t";
  reason = λ score tier. "drift";
}

abbrev pub before : ContainmentState
before = record { rows = []; redis = empty_redis }

response-Enforced_example :
    ((apply_graduated_response surroundings "bot" 9100 none before).0
      ≡ ok (some (action_for surroundings (tier_for_score 9100) "bot" 9100 none)))
    × Enforced
        (tier_for_score 9100)
        2000
        "bot"
        (apply_graduated_response surroundings "bot" 9100 none before).1.redis
response-Enforced_example =
    response-Enforced surroundings "bot" 9100 none before 2000 refl refl (omega arith) (omega arith)
      (omega arith)
