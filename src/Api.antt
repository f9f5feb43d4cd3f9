-- ===== src/Api.antt =====
-- The data that the agent and its clients exchange: pkg/api/types.go, internal.go, helper.go.
-- A pointer that may be nil is an `Option`.
mod Probes
mod Units
mod Volumes
mod Pods
mod Statuses
pub use Probes.*
pub use Units.*
pub use Volumes.*
unfoldable pub use Pods.*
unfoldable pub use Statuses.*
