-- ===== src/Vigil.antt =====
-- cluster/vigil/vigil/loadbalancer: the upstream that a proxy sends a request to.
pub mod Sessions
pub mod Handlers
pub mod Watch
pub mod Balancer
pub mod Cached
pub mod Unique
pub mod Chosen
pub mod Tests
