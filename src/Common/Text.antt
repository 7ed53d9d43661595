-- ===== src/Common/Text.antt =====
-- Go strings as lists of bytes, and what the source takes from `strings` and `path/filepath`.
-- Texts are ASCII: on other bytes `ToLower` is the identity here. `base` and `ext` are those of a
-- build where the path separator is a slash.
use Prim.Native.Nat.{ℕ, zero, suc, ◌+◌, ◌-◌, ◌/◌, ◌%◌}
use Prim.Native.Char.{code}
pub use Prim.Native.String.{String}
use mathlib.Core.Path.{◌≡◌, refl}
use mathlib.Core.Logic.{◌↔◌}
use mathlib.Core.Bool.{Bool, true, false, ◌&&◌, ◌||◌}
use mathlib.Core.Option.{Option, none, some}
use mathlib.Core.List.{List, [], ◌∷◌, ◌++◌, map, reverse}
use native.Mathlib.Omega.{arith}
use gasha_sandbox.Common.Tests.{leb, ltb, ◌==◌, if◌then◌else◌}
use gasha_sandbox.Common.Lists.{length, take}

abbrev pub Text : Type 0
Text = List ℕ

-- A literal. It stays shut in proofs, where only the text as a whole matters.
unfoldable pub codes : String → Text
codes String.[] = []
codes (String.◌∷◌ c s) = code c ∷ codes s

-- The bytes of the characters of a literal.
unfoldable pub utf8 : Text → Text
utf8 [] = []
utf8 (c ∷ s) =
    (if ltb c 128
      then c ∷ []
      else if ltb c 2048
      then (192 + c / 64) ∷ (128 + c % 64) ∷ []
      else (224 + c / 4096) ∷ (128 + c / 64 % 64) ∷ (128 + c % 64) ∷ [])
    ++ utf8 s

unfoldable pub text_eq : Text → Text → Bool
text_eq [] [] = true
text_eq [] (y ∷ ys) = false
text_eq (x ∷ xs) [] = false
text_eq (x ∷ xs) (y ∷ ys) = x == y && text_eq xs ys

pub text_eq→≡ : (a b : Text) → text_eq a b ≡ true → a ≡ b
unfolding text_eq
text_eq→≡ [] [] h = refl
text_eq→≡ [] (y ∷ ys) h = ground arith
text_eq→≡ (x ∷ xs) [] h = ground arith
text_eq→≡ (x ∷ xs) (y ∷ ys) h = ground (arith, text_eq→≡ xs ys)

pub text_eq_refl : (a : Text) → text_eq a a ≡ true
unfolding text_eq
text_eq_refl [] = refl
text_eq_refl (x ∷ xs) = ground (arith, text_eq_refl xs)

pub text_eq_iff : (a b : Text) → (text_eq a b ≡ true) ↔ (a ≡ b)
text_eq_iff a b = (text_eq→≡ a b, λ e. rw e (text_eq_refl b))

-- strings.ToLower
unfoldable pub lower_byte : ℕ → ℕ
lower_byte c = if leb b'A' c && leb c b'Z' then c + 32 else c

unfoldable pub lower : Text → Text
unfolding lower_byte
lower = map lower_byte

-- strings.HasPrefix and strings.HasSuffix
unfoldable pub has_prefix : Text → Text → Bool
has_prefix s [] = true
has_prefix [] (p ∷ ps) = false
has_prefix (c ∷ s) (p ∷ ps) = c == p && has_prefix s ps

unfoldable pub has_suffix : Text → Text → Bool
unfolding has_prefix
has_suffix s p = has_prefix (reverse s) (reverse p)

-- strings.Contains
unfoldable pub contains : Text → Text → Bool
unfolding has_prefix
contains [] p = has_prefix [] p
contains (c ∷ s) p = has_prefix (c ∷ s) p || contains s p

unfoldable pub contains_byte : ℕ → Text → Bool
contains_byte b [] = false
contains_byte b (c ∷ s) = c == b || contains_byte b s

-- strings.TrimSuffix
unfoldable pub trim_suffix : Text → Text → Text
unfolding has_suffix
trim_suffix s p = if has_suffix s p then take (length s - length p) s else s

-- What stands behind the last byte `b`, or the whole text where there is none.
unfoldable pub after_last : ℕ → Text → Text
unfolding contains_byte
after_last b [] = []
after_last b (c ∷ s) =
    let rest = after_last b s in if contains_byte b s then rest else if c == b then s else c ∷ s

abbrev drop_while_eq : ℕ → Text → Text
drop_while_eq b [] = []
drop_while_eq b (c ∷ s) = let rest = drop_while_eq b s in if c == b then rest else c ∷ s

-- filepath.Base
unfoldable pub base : Text → Text
unfolding after_last codes text_eq
base [] = codes "."
base (c ∷ p) =
    let name = after_last b'/' (reverse (drop_while_eq b'/' (reverse (c ∷ p)))) in
    if text_eq name [] then codes "/" else name

-- filepath.Ext
unfoldable pub ext : Text → Text
unfolding after_last contains_byte
ext p =
    let name = after_last b'/' p in
    if contains_byte b'.' name then b'.' ∷ after_last b'.' name else []

-- Membership of a text in a list of texts, as in a `map[string]bool`.
unfoldable pub member : Text → List Text → Bool
unfolding text_eq
member s [] = false
member s (t ∷ ts) = text_eq t s || member s ts

-- An entry of a `map[string]V` held as a list of its entries.
unfoldable pub lookup {ℓ} : {V : Type ℓ} → Text → List (Text × V) → Option V
unfolding text_eq
lookup k [] = none
lookup k ((j, v) ∷ m) = if text_eq j k then some v else lookup k m

-- `%d` of a number that is not negative; `n + 1` rounds print every `n`.
unfoldable pub digits_of : ℕ → ℕ → Text
digits_of zero n = []
digits_of (suc fuel) n =
    let high = digits_of fuel (n / 10) in
    if ltb n 10 then (48 + n) ∷ [] else high ++ (48 + n % 10) ∷ []

unfoldable pub decimal : ℕ → Text
unfolding digits_of
decimal n = digits_of (suc n) n

decimal_test : decimal 4430 ≡ codes "4430"
unfolding decimal codes
decimal_test = refl

base_test : base (codes "/usr/bin/cmd.exe") ≡ codes "cmd.exe"
unfolding base
base_test = refl

base_dir_test : base (codes "/usr/bin//") ≡ codes "bin"
unfolding base
base_dir_test = refl

ext_test : ext (codes "/usr/x.y/cmd.tar.GZ") ≡ codes ".GZ"
unfolding ext codes
ext_test = refl

contains_test : contains (lower (codes "HKCU\\Software\\RUN")) (codes "\\run") ≡ true
unfolding contains lower codes
contains_test = refl
