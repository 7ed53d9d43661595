-- ===== src/Common/Stars.antt =====
-- Cutting one byte off the ends of a text, and cutting a text at a byte that stands in it once.
use gasha_sandbox.Common.Tests.{◌==◌}
use gasha_sandbox.Common.Text.{Text, contains_byte, lower_byte, lower}
use gasha_sandbox.Common.Words.{trim_left, trim, split_from, split}
use Prim.Native.Nat.{ℕ}
use mathlib.Core.Path.{◌≡◌, refl, ◌∙◌}
use mathlib.Core.Bool.{Bool, true, false}
use mathlib.Core.List.{[], ◌∷◌, ◌++◌, reverse, reverse_aux, append_assoc, append-nil}
use native.Mathlib.Omega.{arith}
use gasha_sandbox.Common.Suffix.{reverse_aux-snoc}

module _ (b : ℕ) where
  abbrev is_byte : ℕ → Bool
  is_byte c = c == b

  trim_left-without : (s : Text) → contains_byte b s ≡ false → trim_left is_byte s ≡ s
  unfolding trim_left contains_byte
  trim_left-without [] h = refl
  trim_left-without (c ∷ s) h = ground (arith, h)

  reverse_aux-without :
      (s r : Text)
      → contains_byte b s ≡ false
      → contains_byte b r ≡ false
      → contains_byte b (reverse_aux s r) ≡ false
  unfolding contains_byte
  reverse_aux-without [] r hs hr = hr
  reverse_aux-without (c ∷ s) r hs hr = reverse_aux-without s (c ∷ r) (ground arith) (ground arith)

reverse_aux-reverse_aux : (s r t : Text) → reverse_aux (reverse_aux s r) t ≡ reverse_aux r (s ++ t)
reverse_aux-reverse_aux [] r t = refl
reverse_aux-reverse_aux (c ∷ s) r t = reverse_aux-reverse_aux s (c ∷ r) t

reverse-reverse : (s : Text) → reverse (reverse s) ≡ s
reverse-reverse s = reverse_aux-reverse_aux s [] [] ∙ append-nil s

module _ (b : ℕ) (s : Text) (clean : contains_byte b s ≡ false) where
  trim_right : trim_left (is_byte b) (reverse s) ≡ reverse s
  trim_right =
      trim_left-without b (reverse s)
        (reverse_aux-without b s [] clean (unfold contains_byte in refl))

  pub trim-without : trim (is_byte b) s ≡ s
  unfolding trim
  trim-without = rw (trim_left-without b s clean, trim_right) (reverse-reverse s)

pub trim-cons : (b : ℕ) (s : Text) → trim (is_byte b) (b ∷ s) ≡ trim (is_byte b) s
unfolding trim trim_left
trim-cons b s = let e : (b == b) ≡ true = ground arith in rw e refl

-- A text that has the byte only behind it.
pub trim-snoc : (b : ℕ) (s : Text) → contains_byte b s ≡ false → trim (is_byte b) (s ++ b ∷ []) ≡ s
unfolding trim trim_left contains_byte
trim-snoc b [] clean = let e : (b == b) ≡ true = ground arith in rw e refl
trim-snoc b (c ∷ s) clean =
    let other : (c == b) ≡ false = ground (arith, clean) in
    let same : (b == b) ≡ true = ground arith in
    rw (other, reverse_aux-snoc s b (c ∷ []), same)
      (rw (trim_right b (c ∷ s) clean) (reverse-reverse (c ∷ s)))

split_from-without :
    (b : ℕ) (cur t : Text) → contains_byte b t ≡ false → split_from b cur t ≡ (cur ++ t) ∷ []
unfolding split_from contains_byte
split_from-without b cur [] h = rw (append-nil cur) refl
split_from-without b cur (c ∷ t) h =
    let other : (c == b) ≡ false = ground (arith, h) in
    rw (other, split_from-without b (cur ++ c ∷ []) t (ground arith), append_assoc cur (c ∷ []) t)
      refl

split_from-once :
    (b : ℕ) (cur s t : Text)
    → contains_byte b s ≡ false
    → contains_byte b t ≡ false
    → split_from b cur (s ++ b ∷ t) ≡ (cur ++ s) ∷ t ∷ []
unfolding split_from contains_byte
split_from-once b cur [] t hs ht =
    let same : (b == b) ≡ true = ground arith in
    rw (same, split_from-without b [] t ht, append-nil cur) refl
split_from-once b cur (c ∷ s) t hs ht =
    let other : (c == b) ≡ false = ground (arith, hs) in
    rw (other, split_from-once b (cur ++ c ∷ []) s t (ground arith) ht, append_assoc cur (c ∷ []) s)
      refl

-- The text before the byte and the text behind it.
pub split-once :
    (b : ℕ) (s t : Text)
    → contains_byte b s ≡ false
    → contains_byte b t ≡ false
    → split b (s ++ b ∷ t) ≡ s ∷ t ∷ []
unfolding split
split-once b s t = split_from-once b [] s t

-- Lower case neither adds nor removes a star.
pub lower-without_star :
    (s : Text) → contains_byte b'*' s ≡ false → contains_byte b'*' (lower s) ≡ false
unfolding contains_byte lower lower_byte
lower-without_star [] h = refl
lower-without_star (c ∷ s) h = ground (arith, lower-without_star s)
