-- ===== src/Octovigil.antt =====
-- cluster/octovigil/octovigil: the access decision service.
pub mod Decision
pub mod Acache
pub mod Env
pub mod Walk
pub mod Rules
pub mod Trigger
pub mod AllRules
pub mod Authz
pub mod Identifier
pub mod Authn
pub mod Samples
pub mod Tests
