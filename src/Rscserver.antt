-- ===== src/Rscserver.antt =====
-- The resource server, cluster/rscserver/rscserver: the resources of the Cluster in a database, with a
-- cache before it and the events that watchers are sent.
pub mod Resources
pub mod Operations
pub mod Table
pub mod Rows
pub mod Changed
pub mod Coherent
pub mod Reads
pub mod Implements
pub mod Created
pub mod Renewed
pub mod Updated
pub mod Deleted
pub mod Refined
pub mod Refused
pub mod Watched
pub mod Written
pub mod Versions
pub mod Overtaken
pub mod Filters
pub mod Pages
pub mod Listed
pub mod Tests
pub mod PageTests
