-- ===== src/Executor.antt =====
-- gateway/executor.py, executor_integrations.py and executor_auth.py: the execution of an action by a
-- downstream service, and the tokens that tell the service that the gateway sent it.
pub mod Auth
pub mod Action
