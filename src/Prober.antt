-- ===== src/Prober.antt =====
-- pkg/prober: probes of a unit, and the worker that turns their results into a stable verdict.
pub mod Probe
pub mod Worker
mod Tests
pub use Probe.{
  ProbeResult, success, warning, failure, unknown, ProbeReply, ProbeType, liveness, readiness,
  startup,
}
