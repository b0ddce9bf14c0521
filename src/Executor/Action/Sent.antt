-- ===== src/Executor/Action/Sent.antt =====
-- What was sent when an action was executed.
