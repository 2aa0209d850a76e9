-- ===== src/Octovigil/AllRules/Collected.antt =====
-- What `getAllRules` and `getDecision` of cluster/octovigil/octovigil/policy.go come to, where every
-- Policy has rules whose priorities are in range and whose effects are ALLOW or DENY.
use octelium.Base.{◌≡◌, Bool, true, ◌&&◌, Option, none, some, List, [], ◌∷◌, all}
use octelium.Base.Exec.{Exec}
use octelium.Corev1.Policy.{PolicyTrigger}
use octelium.Corev1.Resources.{Group, Device}
use octelium.Octovigil.Decision.{PolicyRule}
use octelium.Octovigil.Decision.Priority.{admitted}
use octelium.Octovigil.Env.{Env}
use octelium.Octovigil.Walk.{Walk}
use octelium.Octovigil.Rules.Collects.{is_vetted, is_vetted_owner, IsSound, Collects}
use octelium.Octovigil.AllRules.{Asked}

abbrev pub is_vetted_device : Option Device → Bool
is_vetted_device none = true
is_vetted_device (some d) = is_vetted_owner d.authorization

-- The inline Policies of the request's resources have rules whose priorities are in range and
-- whose effects are ALLOW or DENY.
abbrev pub is_vetted_asked : Asked → Bool
is_vetted_asked i =
    is_vetted_owner i.user.authorization
    && all (λ (g : Group). is_vetted_owner g.authorization) i.groups
    && is_vetted_owner i.service.authorization
    && is_vetted_owner i.session.authorization
    && is_vetted_device i.device

abbrev pub is_vetted_trigger : PolicyTrigger → Bool
is_vetted_trigger pt = all (λ p. is_vetted p.spec) pt.inline_policies

-- The same of a collection that does not fail.
abbrev IsSoundly : List PolicyRule × Walk → Type 0
IsSoundly x = IsSound x.1 × (all admitted x.0 ≡ true)

abbrev CollectEach : List (Exec Walk (List PolicyRule)) → Type 0
CollectEach [] = Unit
CollectEach (m ∷ ms) = Collects m × CollectEach ms
