-- ===== src/Octovigil/Walk.antt =====
-- The state of a collection of rules: the cache, and `usedPolicies` of
-- cluster/octovigil/octovigil/policy.go.
use octelium.Base.{String, List}
use octelium.Octovigil.Acache.{Cache}

pub record Walk : Type 0 where
  pub cache : Cache
  pub used : List String
