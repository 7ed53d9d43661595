-- ===== src/Extractor/Utils/Ipv4.antt =====
-- `ExtractIPv4s` and what it calls.
use gasha_sandbox.Common.{
  ℕ, zero, suc, ◌+◌, ◌-◌, ◌*◌, ◌≡◌, refl, Bool, true, false, ◌&&◌, ◌||◌, not, Option, none, some,
  List, [], ◌∷◌, ◌++◌, leb, ltb, ◌==◌, if◌then◌else◌, length, drop, is_nil,
}
use gasha_sandbox.Common.Text.{Text, codes}
use gasha_sandbox.Extractor.Utils.Dedup.{dedup}

unfoldable pub is_digit : ℕ → Bool
is_digit c = leb b'0' c && leb c b'9'

-- The parts between the dots; `cur` is the open one.
unfoldable pub split_from : Text → Text → List Text
split_from cur [] = cur ∷ []
split_from cur (c ∷ s) =
    let more = split_from (cur ++ c ∷ []) s in
    let next = cur ∷ split_from [] s in if c == b'.' then next else more

unfoldable pub split_dot : Text → List Text
unfolding split_from
split_dot s = split_from [] s

-- The value of a text of digits; `none` where another byte stands.
unfoldable pub part_value : ℕ → Text → Option ℕ
unfolding is_digit
part_value n [] = some n
part_value n (c ∷ p) =
    let rest = part_value (n * 10 + (c - b'0')) p in if is_digit c then rest else none

abbrev at_most_255 : Option ℕ → Bool
at_most_255 none = false
at_most_255 (some n) = leb n 255

unfoldable pub is_valid_part : Text → Bool
unfolding part_value
is_valid_part p = not (is_nil p) && leb (length p) 3 && at_most_255 (part_value 0 p)

abbrev all_valid : List Text → Bool
all_valid [] = true
all_valid (p ∷ ps) = is_valid_part p && all_valid ps

unfoldable pub is_valid_ipv4_string : Text → Bool
unfolding split_dot is_valid_part
is_valid_ipv4_string s = length (split_dot s) == 4 && all_valid (split_dot s)

-- The longest start of digits and dots, and its dots.
unfoldable pub digits_and_dots : Text → Text
unfolding is_digit
digits_and_dots [] = []
digits_and_dots (c ∷ s) =
    let rest = c ∷ digits_and_dots s in if is_digit c || c == b'.' then rest else []

unfoldable pub dots : Text → ℕ
dots [] = 0
dots (c ∷ s) = (if c == b'.' then 1 else 0) + dots s

abbrev starts_with_digit : Text → Bool
starts_with_digit [] = false
starts_with_digit (c ∷ s) = is_digit c

-- An address that begins here.
unfoldable pub address_at : Text → Bool
unfolding is_digit digits_and_dots dots is_valid_ipv4_string
address_at s =
    starts_with_digit s && dots (digits_and_dots s) == 3 && is_valid_ipv4_string (digits_and_dots s)

-- The loop `for i := …; i < len(text)-7; i++`, on fuel.
unfoldable pub ipv4s_from : ℕ → Text → ℕ → List Text → List Text
unfolding address_at
ipv4s_from zero text i ips = ips
ipv4s_from (suc fuel) text i ips =
    let found =
      ipv4s_from fuel text (i + length (digits_and_dots (drop i text)))
        (ips ++ digits_and_dots (drop i text) ∷ []) in
    let next = ipv4s_from fuel text (i + 1) ips in
    if ltb (i + 7) (length text) then (if address_at (drop i text) then found else next) else ips

-- Each round moves on by a byte at least, so the length is fuel enough.
unfoldable pub extract_ipv4s : Text → List Text
unfolding ipv4s_from dedup
extract_ipv4s text = dedup (ipv4s_from (length text) text 0 [])

abbrev sample : Text
sample = codes "x10.0.0.1;  8.8.8.8 999.1.1.1 8.8.8.8 ........"

extract_test : extract_ipv4s sample ≡ codes "10.0.0.1" ∷ codes "8.8.8.8" ∷ codes "99.1.1.1" ∷ []
unfolding extract_ipv4s codes
extract_test = refl

short_test : extract_ipv4s (codes "1.1.1.1") ≡ []
unfolding extract_ipv4s codes
short_test = refl
