-- ===== src/Rules/Sigma/Condition/Count.antt =====
-- What the parser makes of "n of prefix*".
use gasha_sandbox.Common.{
  ℕ, zero, suc, ◌≤◌, ◌<◌, ◌^◌, ◌≡◌, refl, Bool, true, false, none, some, List, ◌∷◌, ◌++◌, arith,
}
use gasha_sandbox.Common.Text.{Text, String, codes, text_eq, lower, decimal}
use gasha_sandbox.Common.Words.{scan_int, scan_int-decimal}
use gasha_sandbox.Common.Suffix.{
  lower-append, has_suffix-snoc, trim_suffix-snoc, text_eq-snoc, lower-decimal, text_eq-decimal,
}
use gasha_sandbox.Common.Ints.{pos}
use gasha_sandbox.Rules.Sigma.Types.{wildcard}
use gasha_sandbox.Rules.Sigma.Condition.{
  is_word, is_open, is_quantifier, quantity, plain_atom, at_least_one,
}

module _ (n : ℕ) (bound : n < 2 ^ 63) where
  pub decimal-is_word : (w : String) → scan_int (codes w) ≡ none → is_word w (decimal n) ≡ false
  unfolding is_word
  decimal-is_word w e = rw (lower-decimal n) (text_eq-decimal n (codes w) bound e)

  pub decimal-is_open : is_open (decimal n) ≡ false
  unfolding is_open
  decimal-is_open = text_eq-decimal n (codes "(") bound (unfold scan_int codes in refl)

  decimal-is_quantifier : is_quantifier (decimal n) ≡ true
  unfolding is_quantifier
  decimal-is_quantifier =
      rw
        (
          lower-decimal n,
          scan_int-decimal n bound,
          decimal-is_word "all" (unfold scan_int codes in refl),
          decimal-is_word "any" (unfold scan_int codes in refl),
        )
        (ground arith)

  decimal-quantity : 1 ≤ n → quantity (decimal n) ≡ pos n
  unfolding quantity
  decimal-quantity b =
      rw
        (
          lower-decimal n,
          scan_int-decimal n bound,
          decimal-is_word "all" (unfold scan_int codes in refl),
          decimal-is_word "any" (unfold scan_int codes in refl),
        )
        (counted n b)
    where
      counted : (m : ℕ) → 1 ≤ m → at_least_one (some (pos m)) ≡ pos m
      counted zero c = absurd (omega arith)
      counted (suc m) c = refl

star-is_word :
    (prefix : Text)
    → (is_word "them" (prefix ++ codes "*") ≡ false)
      × (is_word "keywords" (prefix ++ codes "*") ≡ false)
unfolding is_word codes lower
star-is_word prefix = (
  rw (lower-append prefix (codes "*")) (text_eq-snoc (lower prefix) (codes "the") 42 109 (λ e. cc)),
  rw (lower-append prefix (codes "*"))
      (text_eq-snoc (lower prefix) (codes "keyword") 42 115 (λ e. cc)),
)

of-is_word : is_word "of" (codes "of") ≡ true
unfolding is_word lower codes text_eq
of-is_word = refl

-- The atom "n of prefix*".
pub plain_atom-decimal :
    (names : List Text) (ka : Bool) (prefix : Text) (n : ℕ) (rest : List Text)
    → 1 ≤ n
    → n < 2 ^ 63
    → plain_atom names ka (decimal n) (codes "of" ∷ (prefix ++ codes "*") ∷ rest)
      ≡ (wildcard prefix (pos n), rest, ka)
unfolding plain_atom codes
plain_atom-decimal names ka prefix n rest b bound =
    let words = star-is_word prefix in
    rw
      (
        decimal-is_quantifier n bound,
        of-is_word,
        decimal-quantity n bound b,
        words.0,
        words.1,
        has_suffix-snoc prefix 42,
        trim_suffix-snoc prefix 42,
      )
      refl
