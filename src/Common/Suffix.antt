-- ===== src/Common/Suffix.antt =====
-- Texts with a last byte, and printed numbers as words: what `strings` and `fmt` make of them.
use gasha_sandbox.Common.Tests.{ltb, leb, Bool-cases}
use gasha_sandbox.Common.Lists.{length, take, length-append}
use gasha_sandbox.Common.Text.{
  Text, text_eq, text_eq→≡, lower_byte, lower, has_suffix, trim_suffix, digits_of, decimal,
}
use gasha_sandbox.Common.Words.{scan_int, scan_int-decimal}
use Prim.Native.Nat.{ℕ, zero, suc, ◌+◌, ◌-◌, ◌/◌, ◌%◌, ◌^◌, ◌<◌}
use mathlib.Core.Path.{◌≡◌, refl, sym, ap, ◌∙◌}
use mathlib.Core.Logic.{◌≢◌, inl, inr}
use mathlib.Core.Bool.{true, false, ◌&&◌}
use mathlib.Core.Option.{none}
use mathlib.Core.List.{List, [], ◌∷◌, ◌++◌, reverse, reverse_aux}
use native.Mathlib.Omega.{arith}

module _ {ℓ} {A : Type ℓ} where
  pub reverse_aux-snoc :
      (xs : List A) (x : A) (r : List A) → reverse_aux (xs ++ x ∷ []) r ≡ x ∷ reverse_aux xs r
  reverse_aux-snoc [] x r = refl
  reverse_aux-snoc (y ∷ xs) x r = reverse_aux-snoc xs x (y ∷ r)

  take-append : (xs ys : List A) → take (length xs) (xs ++ ys) ≡ xs
  take-append [] ys = refl
  take-append (x ∷ xs) ys = rw (take-append xs ys) refl

pub lower-append : (a b : Text) → lower (a ++ b) ≡ lower a ++ lower b
unfolding lower
lower-append [] b = refl
lower-append (x ∷ a) b = rw (lower-append a b) refl

pub has_suffix-snoc : (s : Text) (c : ℕ) → has_suffix (s ++ c ∷ []) (c ∷ []) ≡ true
unfolding has_suffix
has_suffix-snoc s c = rw (reverse_aux-snoc s c []) (ground arith)

pub trim_suffix-snoc : (s : Text) (c : ℕ) → trim_suffix (s ++ c ∷ []) (c ∷ []) ≡ s
unfolding trim_suffix
trim_suffix-snoc s c =
    let size : length (s ++ c ∷ []) - 1 ≡ length s = omega (arith, length-append s (c ∷ [])) in
    rw (has_suffix-snoc s c, size) (take-append s (c ∷ []))

abbrev head_or : ℕ → Text → ℕ
head_or d [] = d
head_or d (c ∷ s) = c

-- Texts with other last bytes differ.
pub text_eq-snoc : (s t : Text) (c d : ℕ) → c ≢ d → text_eq (s ++ c ∷ []) (t ++ d ∷ []) ≡ false
text_eq-snoc s t c d ne = elim (Bool-cases (text_eq (s ++ c ∷ []) (t ++ d ∷ []))) [
  | inl e ↦
      let same =
        sym (reverse_aux-snoc s c []) ∙ ap reverse (text_eq→≡ _ _ e) ∙ reverse_aux-snoc t d [] in
      absurd (ne (ap (head_or c) same))
  | inr e ↦ e
]

lower-digit : (d : ℕ) → d < 10 → lower ((48 + d) ∷ []) ≡ (48 + d) ∷ []
unfolding lower lower_byte
lower-digit d b =
    let small : (leb b'A' (48 + d) && leb (48 + d) b'Z') ≡ false = ground arith in rw small refl

lower-digits_of : (f n : ℕ) → lower (digits_of f n) ≡ digits_of f n
unfolding digits_of
lower-digits_of zero n = unfold lower in refl
lower-digits_of (suc f) n = elim (Bool-cases (ltb n 10)) [
  | inl e ↦ rw e (lower-digit n (ground arith))
  | inr e ↦
      rw
        (
          e,
          lower-append (digits_of f (n / 10)) ((48 + n % 10) ∷ []),
          lower-digits_of f (n / 10),
          lower-digit (n % 10) (omega arith),
        )
        refl
]

pub lower-decimal : (n : ℕ) → lower (decimal n) ≡ decimal n
unfolding decimal
lower-decimal n = lower-digits_of (suc n) n

-- A printed number is no word that does not scan as one.
pub text_eq-decimal :
    (n : ℕ) (w : Text) → n < 2 ^ 63 → scan_int w ≡ none → text_eq (decimal n) w ≡ false
text_eq-decimal n w b e = elim (Bool-cases (text_eq (decimal n) w)) [
  | inl s ↦ cc (scan_int-decimal n b, ap scan_int (text_eq→≡ _ _ s), e)
  | inr s ↦ s
]
