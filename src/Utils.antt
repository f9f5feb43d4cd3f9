-- ===== src/Utils.antt =====
-- pkg/util: names with namespaces, environment lists, image names, ports of probes, users.
pub mod Names
pub mod EnvList
pub mod Images
pub mod Users
pub mod Passwd
pub mod Files
mod Tests
