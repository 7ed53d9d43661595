-- ===== src/Rules/Yara/Parse/HexStrings.antt =====
-- Hex strings: bytes and wildcards, as they are written and read.
use gasha_sandbox.Common.{
  ℕ, zero, suc, ◌+◌, ◌/◌, ◌%◌, ◌<◌, ◌≡◌, refl, sym, ap, ◌∙◌, inl, inr, true, false, ◌&&◌, ◌||◌,
  Option, none, some, List, [], ◌∷◌, ◌++◌, map, arith, ltb, leb, ◌==◌, if◌then◌else◌, is_nil,
  length, any, All, Bool-cases, append_assoc, append-nil,
}
use gasha_sandbox.Common.Text.{Text, codes, text_eq, has_prefix, contains_byte}
use gasha_sandbox.Common.Words.{is_space, is_digit_byte, fields_from, fields}
use gasha_sandbox.Common.Find.{hex_digit, cut, parse_hex_byte}
use gasha_sandbox.Rules.Yara.Match.{join}
use gasha_sandbox.Rules.Yara.Parse.Strings.{
  with_byte, has_wildcard, drop_comments, hex_fields, parse_hex_string,
}

-- A byte, or a wildcard.
abbrev pub HexUnit : Type 0
HexUnit = Option ℕ

abbrev print_digit : ℕ → ℕ
print_digit d = if ltb d 10 then 48 + d else 55 + d

unfoldable pub print_unit : HexUnit → Text
print_unit none = codes "??"
print_unit (some b) = print_digit (b / 16) ∷ print_digit (b % 16) ∷ []

unfoldable pub print_units : List HexUnit → Text
unfolding print_unit join
print_units us = join (codes " ") (map print_unit us)

abbrev pub byte_of_unit : HexUnit → ℕ
byte_of_unit none = 0
byte_of_unit (some b) = b

abbrev pub mask_of_unit : HexUnit → ℕ
mask_of_unit none = 0
mask_of_unit (some b) = 255

abbrev pub IsUnit : HexUnit → Type 0
IsUnit u = byte_of_unit u < 256

-- A printed digit is read back; it is none of the bytes with a meaning of their own.
hex_digit-print : (d : ℕ) → d < 16 → hex_digit (print_digit d) ≡ some d
hex_digit-print d l = elim (Bool-cases (ltb d 10)) [
  | inl e ↦
      let c : is_digit_byte (48 + d) ≡ true = ground arith in rw (e, c) (ap some (omega arith))
  | inr e ↦
      let c : is_digit_byte (55 + d) ≡ false = ground arith in
      let lower_case : (leb b'a' (55 + d) && leb (55 + d) b'f') ≡ false = ground arith in
      let upper_case : (leb b'A' (55 + d) && leb (55 + d) b'F') ≡ true = ground arith in
      rw (e, c, lower_case, upper_case) (ap some (omega arith))
]

IsPlain : ℕ → Type 0
IsPlain c =
    (is_space c ≡ false) × ((c == b'/') ≡ false) × ((c == b'?') ≡ false) × ((c == b'[') ≡ false)

print_digit-IsPlain : (d : ℕ) → d < 16 → IsPlain (print_digit d)
unfolding IsPlain
print_digit-IsPlain d l = elim (Bool-cases (ltb d 10)) [
  | inl e ↦ rw e (ground arith, ground arith, ground arith, ground arith)
  | inr e ↦ rw e (ground arith, ground arith, ground arith, ground arith)
]

parse_hex_byte-print : (b : ℕ) → b < 256 → parse_hex_byte (print_unit (some b)) ≡ some b
unfolding parse_hex_byte print_unit
parse_hex_byte-print b l =
    rw (hex_digit-print (b / 16) (omega arith), hex_digit-print (b % 16) (omega arith))
      (small _ (omega arith))
  where
    small : (n : ℕ) → n ≡ b → (if ltb n 256 then some n else none) ≡ some b
    small n e = let s : ltb n 256 ≡ true = ground arith in rw s (ap some e)

hex_fields-unit :
    (u : HexUnit) (fs : List Text)
    → IsUnit u
    → hex_fields (print_unit u ∷ fs) ≡ with_byte (byte_of_unit u) (mask_of_unit u) (hex_fields fs)
unfolding hex_fields has_prefix text_eq codes IsPlain
hex_fields-unit none fs l = unfold print_unit in refl
hex_fields-unit (some b) fs l = rw (no_bracket, no_wildcard, parse_hex_byte-print b l) refl
  where
    high : IsPlain (print_digit (b / 16))
    high = print_digit-IsPlain (b / 16) (omega arith)

    low : IsPlain (print_digit (b % 16))
    low = print_digit-IsPlain (b % 16) (omega arith)

    no_bracket : has_prefix (print_unit (some b)) (b'[' ∷ []) ≡ false
    no_bracket = unfold print_unit in rw high.3 refl

    no_wildcard :
        (text_eq (print_unit (some b)) (b'?' ∷ b'?' ∷ []) || has_wildcard (print_unit (some b)))
        ≡ false
    no_wildcard = unfold print_unit in rw (high.2, low.2) refl

hex_fields-units :
    (us : List HexUnit)
    → All IsUnit us
    → hex_fields (map print_unit us) ≡ some (map byte_of_unit us, map mask_of_unit us)
unfolding hex_fields
hex_fields-units [] h = refl
hex_fields-units (u ∷ us) h =
    hex_fields-unit u (map print_unit us) h.0 ∙ (rw (hex_fields-units us h.1) refl)

-- Words with no white space, and not empty, are found again between blanks.
abbrev IsWord : Text → Type 0
IsWord w = (is_nil w ≡ false) × (any is_space w ≡ false)

fields_from-word :
    (cur w rest : Text)
    → any is_space w ≡ false
    → fields_from cur (w ++ rest) ≡ fields_from (cur ++ w) rest
unfolding fields_from
fields_from-word cur [] rest h = rw (append-nil cur) refl
fields_from-word cur (c ∷ w) rest h =
    let other : is_space c ≡ false = ground (arith, h) in
    rw
      (
        other,
        fields_from-word (cur ++ c ∷ []) w rest (ground (arith, h)),
        append_assoc cur (c ∷ []) w,
      )
      refl

fields-join : (ws : List Text) → All IsWord ws → fields (join (codes " ") ws) ≡ ws
unfolding fields join fields_from codes
fields-join [] h = refl
fields-join (w ∷ []) h =
    ap (fields_from []) (sym (append-nil w)) ∙ fields_from-word [] w [] h.0.1 ∙ last w h.0.0
  where
    last : (v : Text) → is_nil v ≡ false → fields_from v [] ≡ v ∷ []
    last [] e = cc
    last (c ∷ v) e = refl
fields-join (w ∷ v ∷ ws) h =
    fields_from-word [] w (b' ' ∷ join (b' ' ∷ []) (v ∷ ws)) h.0.1
    ∙ next w h.0.0
    ∙ ap (λ r. w ∷ r) (fields-join (v ∷ ws) h.1)
  where
    next :
        (u : Text)
        → is_nil u ≡ false
        → fields_from u (b' ' ∷ join (b' ' ∷ []) (v ∷ ws))
          ≡ u ∷ fields_from [] (join (b' ' ∷ []) (v ∷ ws))
    next [] e = cc
    next (c ∷ u) e = refl

unit-IsWord : (u : HexUnit) → IsUnit u → IsWord (print_unit u)
unfolding print_unit IsPlain codes
unit-IsWord none l = (refl, refl)
unit-IsWord (some b) l =
    let high = print_digit-IsPlain (b / 16) (omega arith) in
    let low = print_digit-IsPlain (b % 16) (omega arith) in (refl, rw (high.0, low.0) refl)

units-IsWord : (us : List HexUnit) → All IsUnit us → All IsWord (map print_unit us)
units-IsWord [] h = tt
units-IsWord (u ∷ us) h = (unit-IsWord u h.0, units-IsWord us h.1)

abbrev NoSlash : Text → Type 0
NoSlash s = contains_byte b'/' s ≡ false

append-NoSlash : (s t : Text) → NoSlash s → NoSlash t → NoSlash (s ++ t)
unfolding contains_byte
append-NoSlash [] t hs ht = ht
append-NoSlash (c ∷ s) t hs ht = ground (arith, append-NoSlash s t (ground (arith, hs)) ht)

unit-NoSlash : (u : HexUnit) → IsUnit u → NoSlash (print_unit u)
unfolding print_unit IsPlain codes contains_byte
unit-NoSlash none l = refl
unit-NoSlash (some b) l =
    let high = print_digit-IsPlain (b / 16) (omega arith) in
    let low = print_digit-IsPlain (b % 16) (omega arith) in rw (high.1, low.1) refl

units-NoSlash : (us : List HexUnit) → All IsUnit us → NoSlash (print_units us)
unfolding print_units codes contains_byte
units-NoSlash [] h = refl
units-NoSlash (u ∷ []) h = unit-NoSlash u h.0
units-NoSlash (u ∷ v ∷ us) h =
    append-NoSlash (print_unit u) _ (unit-NoSlash u h.0) (units-NoSlash (v ∷ us) h.1)

cut-NoSlash : (s : Text) → NoSlash s → cut (codes "/*") s ≡ none
unfolding cut contains_byte codes has_prefix
cut-NoSlash [] h = refl
cut-NoSlash (c ∷ s) h =
    let other : (c == b'/') ≡ false = ground (arith, h) in
    rw (other, cut-NoSlash s (ground (arith, h))) refl

drop_comments-NoSlash : (f : ℕ) (s : Text) → NoSlash s → drop_comments f s ≡ s
unfolding drop_comments
drop_comments-NoSlash zero s h = refl
drop_comments-NoSlash (suc f) s h = rw (drop_comments, cut-NoSlash s h) refl

-- Bytes and wildcards, each written with two signs and with blanks between them, are read back as
-- these bytes, with a mask that is 0 at the wildcards and 255 elsewhere.
pub parse_hex_string-print_units :
    (us : List HexUnit)
    → All IsUnit us
    → parse_hex_string (print_units us) ≡ some (map byte_of_unit us, map mask_of_unit us)
unfolding parse_hex_string print_units
parse_hex_string-print_units us h =
    rw
      (
        drop_comments-NoSlash (length (print_units us)) (print_units us) (units-NoSlash us h),
        fields-join (map print_unit us) (units-IsWord us h),
      )
      (hex_fields-units us h)
