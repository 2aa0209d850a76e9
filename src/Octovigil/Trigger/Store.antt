-- ===== src/Octovigil/Trigger/Store.antt =====
-- The PolicyTriggers that `policyTriggerCtl` of cluster/octovigil/octovigil/octovigil.go holds.
use octelium.Base.{
  String, ◌≡◌, refl, Option, none, some, List, [], ◌∷◌, ◌==◌, if◌then◌else◌, eq_iff, str_eq_refl,
  arith,
}
use octelium.Corev1.Policy.{PolicyTrigger}
use octelium.Octovigil.Trigger.{
  delete_policy_trigger, set_policy_trigger, on_add, on_update, on_delete,
}

-- What the map holds at a UID.
abbrev pub get_policy_trigger : String → List PolicyTrigger → Option PolicyTrigger
get_policy_trigger uid [] = none
get_policy_trigger uid (pt ∷ pts) =
    if pt.metadata.uid == uid then some pt else get_policy_trigger uid pts

-- A deleted trigger is gone, and every other one stays.
pub get-delete_policy_trigger :
    (pts : List PolicyTrigger) (i : PolicyTrigger) (uid : String)
    → get_policy_trigger uid (delete_policy_trigger pts i)
      ≡ (if i.metadata.uid == uid then none else get_policy_trigger uid pts)
unfolding delete_policy_trigger
get-delete_policy_trigger [] i uid = ground arith
get-delete_policy_trigger (pt ∷ pts) i uid = grind (
  arith,
  get-delete_policy_trigger pts i uid,
  eq_iff pt.metadata.uid i.metadata.uid,
  eq_iff pt.metadata.uid uid,
  eq_iff i.metadata.uid uid,
)

-- A trigger that is added, or is updated from `old`, is held under its UID, and what every other UID
-- holds stays.
pub get-set_policy_trigger :
    (pts : List PolicyTrigger) (i old : PolicyTrigger) (uid : String)
    → (get_policy_trigger uid (on_add pts i)
        ≡ (if i.metadata.uid == uid then some i else get_policy_trigger uid pts))
      × (on_update pts i old ≡ on_add pts i)
unfolding set_policy_trigger
get-set_policy_trigger pts i old uid = (ground (arith, get-delete_policy_trigger pts i uid), refl)

-- A trigger that is deleted is still held under its UID after `OnDelete`, and not after
-- `DeletePolicyTrigger`.
pub deleted_trigger_remains :
    (pts : List PolicyTrigger) (p : PolicyTrigger)
    → (get_policy_trigger p.metadata.uid (on_delete pts p) ≡ some p)
      × (get_policy_trigger p.metadata.uid (delete_policy_trigger pts p) ≡ none)
unfolding set_policy_trigger
deleted_trigger_remains pts p =
    ground (arith, str_eq_refl p.metadata.uid, get-delete_policy_trigger pts p p.metadata.uid)
