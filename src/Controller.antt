-- ===== src/Controller.antt =====
-- pkg/server/pod_controller.go: the pod controller, which brings the units of the pod that runs on
-- this instance to the specification that the client sent last.
pub mod Runtime
pub mod Diff
pub mod Secrets
pub mod State
pub mod Update
pub mod Task
pub mod Loop
pub mod Status
pub mod Samples
mod Tests
