-- ===== src/Common/Words.antt =====
-- What the source takes from `strings` and `fmt` to cut a text into words and read numbers. White
-- space is that of ASCII.
use gasha_sandbox.Common.Tests.{ltb, leb, ◌==◌, if◌then◌else◌, Bool-cases}
use gasha_sandbox.Common.Ints.{ℤ, pos, negsuc}
use gasha_sandbox.Common.Text.{Text, codes, digits_of, decimal, has_prefix}
use Prim.Native.Nat.{ℕ, zero, suc, ◌+◌, ◌-◌, ◌*◌, ◌/◌, ◌%◌, ◌^◌, ◌<◌}
use mathlib.Core.Path.{◌≡◌, refl, sym, ap, ◌∙◌}
use mathlib.Core.Logic.{inl, inr}
use mathlib.Core.Bool.{Bool, true, false, ◌&&◌, ◌||◌}
use mathlib.Core.Option.{Option, none, some}
use mathlib.Core.List.{List, [], ◌∷◌, ◌++◌, map, reverse, append_assoc, append-nil}
use native.Mathlib.Omega.{arith}

abbrev pub is_space : ℕ → Bool
is_space c = c == 32 || leb 9 c && leb c 13

abbrev pub end_word : Text → List Text → List Text
end_word [] ws = ws
end_word (c ∷ cur) ws = (c ∷ cur) ∷ ws

-- strings.Fields, `cur` being the open word
unfoldable pub fields_from : Text → Text → List Text
fields_from cur [] = end_word cur []
fields_from cur (c ∷ s) =
    let more = fields_from (cur ++ c ∷ []) s in
    let next = end_word cur (fields_from [] s) in if is_space c then next else more

unfoldable pub fields : Text → List Text
unfolding fields_from
fields s = fields_from [] s

-- strings.Split at one byte
unfoldable pub split_from : ℕ → Text → Text → List Text
split_from b cur [] = cur ∷ []
split_from b cur (c ∷ s) =
    let more = split_from b (cur ++ c ∷ []) s in
    let next = cur ∷ split_from b [] s in if c == b then next else more

unfoldable pub split : ℕ → Text → List Text
unfolding split_from
split b s = split_from b [] s

-- strings.ReplaceAll of one byte
unfoldable pub replace_byte : ℕ → Text → Text → Text
replace_byte b by [] = []
replace_byte b by (c ∷ s) = (if c == b then by else c ∷ []) ++ replace_byte b by s

-- strings.Trim at the left of the bytes that `p` accepts, and at both ends
unfoldable pub trim_left : (ℕ → Bool) → Text → Text
trim_left p [] = []
trim_left p (c ∷ s) = let rest = trim_left p s in if p c then rest else c ∷ s

unfoldable pub trim : (ℕ → Bool) → Text → Text
unfolding trim_left
trim p s = reverse (trim_left p (reverse (trim_left p s)))

unfoldable pub trim_space : Text → Text
unfolding trim
trim_space s = trim is_space s

-- strings.ToUpper
unfoldable pub upper : Text → Text
upper s = map (λ c. if leb b'a' c && leb c b'z' then c - 32 else c) s

-- strings.TrimPrefix
abbrev drop_text : Text → Text → Text
drop_text [] s = s
drop_text (p ∷ ps) [] = []
drop_text (p ∷ ps) (c ∷ s) = drop_text ps s

unfoldable pub trim_prefix : Text → Text → Text
unfolding has_prefix
trim_prefix s p = if has_prefix s p then drop_text p s else s

abbrev pub is_digit_byte : ℕ → Bool
is_digit_byte c = leb 48 c && leb c 57

-- The value of the digits that a text starts with, behind those of `n`.
unfoldable pub digits_value : ℕ → Text → ℕ
digits_value n [] = n
digits_value n (c ∷ s) =
    let rest = digits_value (n * 10 + (c - 48)) s in if is_digit_byte c then rest else n

-- `fmt.Sscanf(s, "%d", &n)`: digits, after a sign, that make an `int`; what follows is not read.
abbrev scan_digits : Text → Option ℕ
scan_digits [] = none
scan_digits (c ∷ s) = if is_digit_byte c then some (digits_value 0 (c ∷ s)) else none

abbrev in_range : Option ℕ → Option ℤ
in_range none = none
in_range (some n) = if ltb n (2 ^ 63) then some (pos n) else none

abbrev negated : Option ℕ → Option ℤ
negated none = none
negated (some zero) = some (pos 0)
negated (some (suc n)) = if ltb n (2 ^ 63) then some (negsuc n) else none

unfoldable pub scan_int : Text → Option ℤ
unfolding digits_value
scan_int [] = none
scan_int (c ∷ s) =
    if c == b'-'
    then negated (scan_digits s)
    else if c == b'+'
    then in_range (scan_digits s)
    else in_range (scan_digits (c ∷ s))

-- What is printed starts with a digit.
digits_of-head :
    (f n : ℕ) → n < f → (c : ℕ) × (s : Text) × (digits_of f n ≡ c ∷ s) × (is_digit_byte c ≡ true)
unfolding digits_of
digits_of-head zero n h = elim h [ ]
digits_of-head (suc f) n h = elim (Bool-cases (ltb n 10)) [
  | inl e ↦ (48 + n, [], rw e refl, ground arith)
  | inr e ↦
      let high = digits_of-head f (n / 10) (ground arith) in
      (high.0, high.1 ++ (48 + n % 10) ∷ [], rw (e, high.2) refl, high.3)
]

-- The digits of a number have its value.
digits_value-digits_of :
    (f n : ℕ) (rest : Text) → n < f → digits_value 0 (digits_of f n ++ rest) ≡ digits_value n rest
unfolding digits_of digits_value
digits_value-digits_of zero n rest h = elim h [ ]
digits_value-digits_of (suc f) n rest h = elim (Bool-cases (ltb n 10)) [
  | inl e ↦
      let d : is_digit_byte (48 + n) ≡ true = ground arith in
      rw (e, d) (ap (λ m. digits_value m rest) (omega arith))
  | inr e ↦
      let d : is_digit_byte (48 + n % 10) ≡ true = ground arith in
      rw (e, append_assoc (digits_of f (n / 10)) ((48 + n % 10) ∷ []) rest)
        (digits_value-digits_of f (n / 10) ((48 + n % 10) ∷ rest) (ground arith)
          ∙ (rw d (ap (λ m. digits_value m rest) (omega arith))))
]

in_range-scan_digits :
    (c : ℕ) (s : Text) (n : ℕ)
    → is_digit_byte c ≡ true
    → digits_value 0 (c ∷ s) ≡ n
    → n < 2 ^ 63
    → in_range (scan_digits (c ∷ s)) ≡ some (pos n)
in_range-scan_digits c s n d v h =
    let small : ltb n (2 ^ 63) ≡ true = ground arith in rw (d, v, small) refl

-- A number that is printed is read back.
pub scan_int-decimal : (n : ℕ) → n < 2 ^ 63 → scan_int (decimal n) ≡ some (pos n)
unfolding scan_int decimal
scan_int-decimal n h = go (digits_of (suc n) n) (digits_of-head (suc n) n (omega arith)) value
  where
    value : digits_value 0 (digits_of (suc n) n) ≡ n
    value =
        ap (digits_value 0) (sym (append-nil (digits_of (suc n) n)))
        ∙ digits_value-digits_of (suc n) n [] (omega arith)

    go :
        (t : Text)
        → (c : ℕ) × (s : Text) × (t ≡ c ∷ s) × (is_digit_byte c ≡ true)
        → digits_value 0 t ≡ n
        → scan_int t ≡ some (pos n)
    go t (c, s, e, d) v =
        let m : (c == b'-') ≡ false = ground arith in
        let p : (c == b'+') ≡ false = ground arith in
        rw (e, m, p) (in_range-scan_digits c s n d (rw e at v) h)

words_test : fields (codes " 1 of  sel_* ") ≡ codes "1" ∷ codes "of" ∷ codes "sel_*" ∷ []
unfolding fields codes
words_test = refl

trim_test : trim_space (codes " a b ") ≡ codes "a b"
unfolding trim_space codes
trim_test = refl
