-- ===== src/Lib.antt =====
-- The ACR control plane (implementations/acr-control-plane/src/acr): the gateway that decides on the
-- actions of AI agents, and the components it asks. Paths below are relative to that directory.
--
-- An agent posts an action to the gateway (gateway/router.py). The gateway compares the subject of the
-- token with the agent, reads the kill switch and the containment keys from Redis, validates the agent
-- in the registry, counts and prices the action, asks the policy engine, filters personal data from
-- the parameters, and then queues an approval, denies, or charges the action and executes it.
--
-- What models what:
--   Errors       common/errors.py, the exceptions and their codes; results that may be one of them;
--                and compare_digest, which raises on a text that is not ASCII
--   Exec         handlers that change a state and may raise: what was written before stays written
--   Json         the JSON values and dictionaries that the handlers read and write
--   Redis        the keys of the Redis server with their values and times of expiry
--   Identity     pillar1_identity/registry.py (Registry), models.py (Models) with the dump of a
--                manifest (Dump); of validator.py validate_agent_identity (Validator) and the tokens,
--                with gateway/auth.py (Token)
--   Policy       pillar2_policy/engine.py (Engine) and output_filter.py (Filter)
--   Authority    pillar6_authority/approval.py (Approval), and of router.py the endpoints that decide,
--                with execute_approval (Endpoint); tiering.py (Tiering)
--   Containment  pillar5_containment/service.py and killswitch.py (KillSwitch), graduated.py
--                (Graduated)
--   Gateway      gateway/spend_control.py (Spend); of gateway/router.py the containment gate and the
--                rate counter (Gates), the action that remains after a modification (Effective),
--                the endpoint (Evaluate), and the background tasks on drift (DriftTasks)
--   Drift        pillar3_drift/baseline.py (Baseline), governance.py (Governance), signals.py (Signals)
--                and detector.py (Detector)
--   Observability pillar4_observability/integrity.py and persist_event of telemetry.py (Integrity)
--   Executor     gateway/executor_auth.py (Auth), executor.py and executor_integrations.py (Action)
--   Operators    operator_keys/service.py (Keys), common/operator_auth.py (Auth) and the tokens of
--                common/oidc.py (Oidc)
--   Config       config.py
--   Startup      main.py: the start of the application, and its loops and readiness (Loops)
--   Sdk          sdk/client.py (Client) and the guard of a tool of sdk/langgraph.py (Guard)
--   Studio       policy_studio/service.py with the validation of a draft (Drafts), publisher.py
--                (Publisher) and releases.py (Releases)
--   Tests        concrete data and runs of the theorems on it
-- A function of the source has a definition of the same name; the steps of `evaluate` are the
-- definitions of Gateway/Evaluate.antt, in their order. Tables are lists of rows in order of insertion,
-- and a handler that raises leaves the database as it was.
--
-- Numbers. Amounts of money are integers in millionths of a dollar, drift scores in ten-thousandths;
-- sums and roundings of amounts are exact, where the source computes in binary floats.
-- Times are numbers of seconds, in the registry of microseconds, from the epoch. The policy engine is
-- asked at most three times, and a lineage has at most 33 agents: the loops of the source have these
-- bounds themselves.
--
-- Outside of the model, and parameters of it: the replies of the policy engine and of executors and
-- the circuit breakers before them, the regular expressions of the output filter, the clock, at
-- which commands Redis fails, floating-point numbers and the formulas of a baseline, the JWT
-- library, JSON printing, SHA-256 and the HMAC, and the archive of a policy bundle with the disk or
-- S3 that takes it. In the gateway the executor is a parameter, whose source Executor models. Not
-- modelled: logging, metrics, latencies and the HTTP framework; the endpoint records its background
-- tasks, of which DriftTasks runs those on drift; the policy simulator, the login of operators, and
-- of the client library the versions with async.
pub mod Prelude
pub mod Errors
pub mod Exec
pub mod Json
pub mod Redis
pub mod Identity
pub mod Policy
pub mod Authority
pub mod Containment
pub mod Gateway
pub mod Drift
pub mod Observability
pub mod Studio
pub mod Operators
pub mod Tests
pub mod Config
pub mod Executor
pub mod Sdk
pub mod Startup
