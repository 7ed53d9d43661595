-- ===== src/Common/Find.antt =====
-- What the source takes from `strings` and `strconv` to find parts of a text and to read numbers.
use gasha_sandbox.Common.Tests.{ltb, leb, ◌==◌, if◌then◌else◌}
use gasha_sandbox.Common.Ints.{ℤ, pos, negsuc}
use gasha_sandbox.Common.Text.{Text, codes, has_prefix}
use gasha_sandbox.Common.Words.{trim_prefix, trim_left, is_digit_byte}
use Prim.Native.Nat.{ℕ, zero, suc, ◌+◌, ◌-◌, ◌*◌, ◌^◌}
use mathlib.Core.Path.{◌≡◌, refl}
use mathlib.Core.Bool.{Bool, true, false, ◌&&◌}
use mathlib.Core.Option.{Option, none, some}
use mathlib.Core.List.{[], ◌∷◌, reverse}

abbrev with_head : ℕ → Option (Text × Text) → Option (Text × Text)
with_head c none = none
with_head c (some (a, b)) = some (c ∷ a, b)

-- What stands before and behind the first `p`, as `strings.Index` finds it.
unfoldable pub cut : Text → Text → Option (Text × Text)
unfolding has_prefix trim_prefix
cut p [] = if has_prefix [] p then some ([], []) else none
cut p (c ∷ s) =
    let more = with_head c (cut p s) in
    if has_prefix (c ∷ s) p then some ([], trim_prefix (c ∷ s) p) else more

-- What stands before and behind the last byte `b`.
unfoldable pub cut_last : ℕ → Text → Option (Text × Text)
cut_last b [] = none
cut_last b (c ∷ s) = elim (cut_last b s) [
  | some (u, v) ↦ some (c ∷ u, v)
  | none ↦ if c == b then some ([], s) else none
]

-- strings.TrimRight of the bytes that `p` accepts
unfoldable pub trim_right : (ℕ → Bool) → Text → Text
unfolding trim_left
trim_right p s = reverse (trim_left p (reverse s))

-- strings.ReplaceAll of two bytes by one
unfoldable pub replace_pair : ℕ → ℕ → ℕ → Text → Text
replace_pair a b by [] = []
replace_pair a b by (c ∷ []) = c ∷ []
replace_pair a b by (c ∷ d ∷ s) =
    let rest = replace_pair a b by s in
    let more = replace_pair a b by (d ∷ s) in if c == a && d == b then by ∷ rest else c ∷ more

-- The value of a text of digits only.
abbrev all_digits : ℕ → Text → Option ℕ
all_digits n [] = some n
all_digits n (c ∷ s) =
    let rest = all_digits (n * 10 + (c - 48)) s in if is_digit_byte c then rest else none

abbrev digits_only : Text → Option ℕ
digits_only [] = none
digits_only (c ∷ s) = all_digits 0 (c ∷ s)

abbrev int_of : Bool → Option ℕ → Option ℤ
int_of negative none = none
int_of false (some n) = if ltb n (2 ^ 63) then some (pos n) else none
int_of true (some zero) = some (pos 0)
int_of true (some (suc n)) = if ltb n (2 ^ 63) then some (negsuc n) else none

-- strconv.Atoi
unfoldable pub atoi : Text → Option ℤ
atoi [] = none
atoi (c ∷ s) =
    if c == b'-'
    then int_of true (digits_only s)
    else if c == b'+'
    then int_of false (digits_only s)
    else int_of false (digits_only (c ∷ s))

abbrev pub hex_digit : ℕ → Option ℕ
hex_digit c =
    if is_digit_byte c
    then some (c - 48)
    else if leb b'a' c && leb c b'f'
    then some (c - 87)
    else if leb b'A' c && leb c b'F'
    then some (c - 55)
    else none

abbrev hex_step : Option ℕ → Option ℕ → Option ℕ
hex_step none d = none
hex_step (some n) none = none
hex_step (some n) (some d) = some (n * 16 + d)

abbrev hex_value : Option ℕ → Text → Option ℕ
hex_value n [] = n
hex_value n (c ∷ s) = hex_value (hex_step n (hex_digit c)) s

abbrev byte_of : Option ℕ → Option ℕ
byte_of none = none
byte_of (some n) = if ltb n 256 then some n else none

-- `strconv.ParseUint(s, 16, 8)`
unfoldable pub parse_hex_byte : Text → Option ℕ
parse_hex_byte [] = none
parse_hex_byte (c ∷ s) = byte_of (hex_value (some 0) (c ∷ s))

cut_test : cut (codes "of ") (codes "1 of of x") ≡ some (codes "1 ", codes "of x")
unfolding cut codes
cut_test = refl

parse_hex_byte_test : parse_hex_byte (codes "4D") ≡ some 77
unfolding parse_hex_byte codes
parse_hex_byte_test = refl
