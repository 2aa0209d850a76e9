-- ===== src/Rscdiff.antt =====
-- client/common/rscdiff/diff.go: what `octelium` and `octops` commands change on a Cluster so
-- that it has the resources that a user wrote down.
pub mod Items
pub mod Current
pub mod Walked
pub mod Collected
pub mod Run
pub mod Applied
pub mod Settled
pub mod Tests
