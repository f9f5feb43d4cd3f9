-- ===== src/RunUnit.antt =====
-- pkg/unit/unit.go: a unit's status file, and the loop that runs, watches and restarts its command.
-- The files stand in the order of use: the state, the status file, the probes' loop, the restarts.
pub mod State
pub mod Status
pub mod Watch
pub mod Loop
pub mod Identity
mod Tests
