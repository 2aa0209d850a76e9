-- ===== src/Sessionc.antt =====
-- cluster/common/sessionc/sessionc.go: the Sessions that the Cluster makes for its Users, and the
-- authentications that follow.
pub mod Lifetime
pub mod Caller
pub mod Create
pub mod Authenticate
pub mod Durations
pub mod History
pub mod Limit
pub mod Tests
