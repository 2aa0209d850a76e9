-- ===== src/Apivalidation.antt =====
-- cluster/common/apivalidation/apivalidation.go: names, and the parents of a name.
use octelium.Base.{
  ℕ, zero, suc, String, len, Bool, true, false, not, List, [], ◌∷◌, Result, ok, err, failed, ◌>>=◌,
  ltb, nat_beq, length, all, if◌then◌else◌, ◌+◌,
}
use octelium.Base.Text.{is_name, split, after_nth, single_hyphens}

-- `rgx.NameMain`
abbrev pub is_main_name : String → Bool
is_main_name = is_name 40

-- The first `if` of `validateName`: the number of parts, and each part.
unfoldable pub has_valid_parts : String → ℕ → ℕ → Bool
unfolding is_name split
has_valid_parts arg parents_must parents_max =
    let args = split b'.' arg in
    if not (nat_beq parents_must 0)
    then if not (nat_beq (length args) (parents_must + 1)) then false else all is_main_name args
    else if not (nat_beq parents_max 0)
    then if ltb (parents_max + 1) (length args) then false else all is_main_name args
    else is_main_name arg

unfoldable pub validate_name : String → ℕ → ℕ → Result (Unit {0})
unfolding has_valid_parts single_hyphens
validate_name arg parents_must parents_max =
    if not (has_valid_parts arg parents_must parents_max)
    then err (failed "Invalid name")
    else if not (single_hyphens true arg)
    then err (failed "Invalid name")
    else if ltb 128 (len arg)
    then err (failed "Too long name")
    else ok tt

-- The loop over `i`, with the rounds left and `i - 1`.
unfoldable pub suffix_loop : ℕ → ℕ → String → List String
unfolding after_nth
suffix_loop zero k arg = []
suffix_loop (suc n) k arg = after_nth b'.' k arg ∷ suffix_loop n (suc k) arg

unfoldable pub get_name_and_parents : String → Result (List String)
unfolding validate_name suffix_loop
get_name_and_parents arg = do
  checked ← validate_name arg 0 6
  ok (suffix_loop (length (split b'.' arg)) 0 arg)
