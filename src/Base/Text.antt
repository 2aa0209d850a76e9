-- ===== src/Base/Text.antt =====
-- Texts character by character: what the regular expressions and the splits of the program need.
use Prim.Native.Nat.{ℕ, zero, suc}
use Prim.Native.Char.{code}
use Prim.Native.String.{String}
use mathlib.Core.Path.{◌≡◌, refl}
use mathlib.Core.Bool.{Bool, true, false, not, ◌&&◌, ◌||◌}
use mathlib.Core.Option.{Option, none, some}
use mathlib.Core.List.{List, [], ◌∷◌}
use native.Mathlib.Omega.{arith}
use octelium.Base.Tests.{leb, nat_beq, if◌then◌else◌}

unfoldable pub length_of : String → ℕ
length_of String.[] = 0
length_of (String.◌∷◌ c s) = suc (length_of s)

-- Every character is in the class.
unfoldable pub all_in : (ℕ → Bool) → String → Bool
all_in p String.[] = true
all_in p (String.◌∷◌ c s) = p (code c) && all_in p s

unfoldable pub has_char : ℕ → String → Bool
has_char x String.[] = false
has_char x (String.◌∷◌ c s) = nat_beq (code c) x || has_char x s

unfoldable pub first_in : (ℕ → Bool) → String → Bool
first_in p String.[] = false
first_in p (String.◌∷◌ c s) = p (code c)

unfoldable pub last_in : (ℕ → Bool) → String → Bool
last_in p String.[] = false
last_in p (String.◌∷◌ c String.[]) = p (code c)
last_in p (String.◌∷◌ c (String.◌∷◌ d s)) = last_in p (String.◌∷◌ d s)

-- The texts before and after the first occurrence of a character.
unfoldable pub cut : ℕ → String → Option (String × String)
cut x String.[] = none
cut x (String.◌∷◌ c s) =
    let rest = cut x s in
    if nat_beq (code c) x
    then some (String.[], s)
    else elim rest [ none ↦ none | some (a, b) ↦ some (String.◌∷◌ c a, b) ]

-- `strings.Split` at a character: one part more than there are separators.
unfoldable pub split : ℕ → String → List String
split x String.[] = String.[] ∷ []
split x (String.◌∷◌ c s) =
    let rest = split x s in
    if nat_beq (code c) x
    then String.[] ∷ rest
    else elim rest [ [] ↦ String.◌∷◌ c String.[] ∷ [] | p ∷ ps ↦ String.◌∷◌ c p ∷ ps ]

-- What follows the first `k` separators: the last of `strings.SplitAfterN(s, x, k + 1)`.
unfoldable pub after_nth : ℕ → ℕ → String → String
after_nth x zero s = s
after_nth x (suc k) String.[] = String.[]
after_nth x (suc k) (String.◌∷◌ c s) =
    if nat_beq (code c) x then after_nth x k s else after_nth x (suc k) s

-- `^[^-]+(?:-[^-]+)*$`, where the flag says that the character before was a hyphen, or none.
unfoldable pub single_hyphens : Bool → String → Bool
single_hyphens open_ String.[] = not open_
single_hyphens open_ (String.◌∷◌ c s) =
    let rest = single_hyphens (nat_beq (code c) b'-') s in
    if open_ && nat_beq (code c) b'-' then false else rest

abbrev pub is_lower : ℕ → Bool
is_lower c = leb b'a' c && leb c b'z'

abbrev pub is_upper : ℕ → Bool
is_upper c = leb b'A' c && leb c b'Z'

abbrev pub is_digit : ℕ → Bool
is_digit c = leb b'0' c && leb c b'9'

-- `[a-z0-9]`
abbrev pub is_alnum : ℕ → Bool
is_alnum c = is_lower c || is_digit c

-- `[a-z0-9-]`
abbrev pub is_name_char : ℕ → Bool
is_name_char c = is_alnum c || nat_beq c b'-'

-- `[a-zA-Z0-9-]`
abbrev pub is_word_char : ℕ → Bool
is_word_char c = is_name_char c || is_upper c

-- `^[a-z][a-z0-9-]{0,n}[a-z0-9]$`, where `longest` is n + 2.
unfoldable pub is_name : ℕ → String → Bool
unfolding length_of all_in first_in last_in
is_name longest s =
    first_in is_lower s
    && all_in is_name_char s
    && last_in is_alnum s
    && leb 2 (length_of s)
    && leb (length_of s) longest

-- No text in a class holds a character outside it.
pub all_in-has_char :
    (p : ℕ → Bool) (x : ℕ) (s : String) → p x ≡ false → all_in p s ≡ true → has_char x s ≡ false
unfolding all_in has_char
all_in-has_char p x String.[] out h = refl
all_in-has_char p x (String.◌∷◌ c s) out h = ground (arith, all_in-has_char p x s)

-- What follows a prefix: `strings.HasPrefix` and `strings.TrimPrefix`.
unfoldable pub strip_prefix : String → String → Option String
strip_prefix String.[] s = some s
strip_prefix (String.◌∷◌ c p) String.[] = none
strip_prefix (String.◌∷◌ c p) (String.◌∷◌ d s) =
    let rest = strip_prefix p s in if nat_beq (code c) (code d) then rest else none
