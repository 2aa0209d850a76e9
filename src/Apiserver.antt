-- ===== src/Apiserver.antt =====
-- cluster/apiserver/apiserver: what the API server admits.
pub mod Policies
