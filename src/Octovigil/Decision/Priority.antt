-- ===== src/Octovigil/Decision/Priority.antt =====
-- The order that `doGetDecision` sorts by, for rules whose priority the API server admits
-- (cluster/apiserver/apiserver/admin/policy.go) and whose effect is ALLOW or DENY.
use octelium.Base.{
  ℕ, ◌+◌, ◌-◌, ◌*◌, ◌%◌, ◌^◌, ◌≡◌, Bool, true, false, ◌&&◌, ltb, leb, arith, if◌then◌else◌,
}
use octelium.Base.Sort.{less, same, greater, is_less, IsStrictWeak}
use octelium.Corev1.Policy.{Effect, Rule}
use octelium.Octovigil.Decision.{PolicyRule, sub_int32, sign_int32, compare_rules}

-- The integer that an int32 stands for, plus 2 ^ 31.
abbrev pub signed : ℕ → ℕ
signed p = (p + 2 ^ 31) % 2 ^ 32

abbrev pub priority_max_val : ℕ
priority_max_val = 4

-- The effect is ALLOW or DENY.
abbrev pub is_known : Effect → Bool
is_known Effect.allow = true
is_known Effect.deny = true
is_known _ = false

-- The priority is 32 bits, and passes the checks of `validatePolicySpec`.
abbrev pub is_in_range : Rule → Bool
is_in_range r =
    ltb r.priority (2 ^ 32)
    && leb (signed r.priority) (2 ^ 31 + priority_max_val)
    && leb (2 ^ 31 - priority_max_val) (signed r.priority)

-- The rules that the comparison orders. The API server checks the priority, but of the effect only
-- that it is not UNKNOWN.
abbrev pub is_admitted : Rule → Bool
is_admitted r = is_known r.effect && is_in_range r

abbrev pub admitted : PolicyRule → Bool
admitted r = is_admitted r.rule

-- The place of a rule: by priority, and DENY first at one priority.
abbrev pub rank : PolicyRule → ℕ
rank r = signed r.rule.priority * 2 + (elim r.rule.effect [ Effect.deny ↦ 0 | _ ↦ 1 ])

-- The difference on int32 does not overflow, so its sign compares the signed priorities.
sign-sub_int32 :
    (a b : ℕ)
    → (ltb a (2 ^ 32) && leb (signed a) (2 ^ 31 + 4) && leb (2 ^ 31 - 4) (signed a)) ≡ true
    → (ltb b (2 ^ 32) && leb (signed b) (2 ^ 31 + 4) && leb (2 ^ 31 - 4) (signed b)) ≡ true
    → sign_int32 (sub_int32 a b) ≡ (
        if ltb (signed a) (signed b)
        then less
        else if ltb (signed b) (signed a)
        then greater
        else same)
sign-sub_int32 a b h k = ground arith

-- On these rules the comparison is that of the ranks.
pub compare_rules-rank :
    (a b : PolicyRule)
    → admitted a ≡ true
    → admitted b ≡ true
    → is_less (compare_rules a b) ≡ ltb (rank a) (rank b)
unfolding compare_rules
compare_rules-rank a b h k = ground (arith, sign-sub_int32 a.rule.priority b.rule.priority)

pub compare_rules-IsStrictWeak : IsStrictWeak admitted compare_rules
compare_rules-IsStrictWeak = record {
  irrefl = λ a v. ground (arith, compare_rules-rank a a v v);
  trans = λ a b c u v w h k.
      ground
        (arith, compare_rules-rank a b u v, compare_rules-rank b c v w, compare_rules-rank a c u w);
  neg_trans = λ a b c u v w h k.
      ground
        (arith, compare_rules-rank a b u v, compare_rules-rank b c v w, compare_rules-rank a c u w);
}
