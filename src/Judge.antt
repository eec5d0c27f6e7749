-- ===== src/Judge.antt =====
-- internal/judge: the health of judges, the choice among them, the heuristic on a text and the reading
-- of an answer.
pub mod Health
pub mod Recovery
pub mod Registry
pub mod Failover
pub mod Rules
pub mod Verdicts
