-- ===== src/Upstream.antt =====
-- cluster/common/upstream/upstream.go: the listener ports and the private addresses of a connected
-- Session.
pub mod Ports
pub mod Listener
pub mod Served
pub mod Serving
pub mod Addresses
pub mod FreePort
pub mod Indexes
pub mod Outcomes
pub mod Restored
pub mod Candidates
pub mod Hosts
pub mod Found
pub mod Tests
pub mod ServingTests
pub mod HostTests
