-- ===== src/Rules/Sigma/Condition/Total.antt =====
-- The parser has a result for every input, within the fuel it is given.
use gasha_sandbox.Common.{
  ℕ, zero, suc, ◌+◌, ◌*◌, ◌≤◌, ◌≡◌, refl, inl, inr, Bool, true, false, ◌&&◌, Option, none, some,
  List, [], ◌∷◌, arith, if◌then◌else◌, length, Bool-cases,
}
use gasha_sandbox.Common.Text.{Text}
use gasha_sandbox.Rules.Sigma.Types.{SigmaCondExpr, both, either}
use gasha_sandbox.Rules.Sigma.Condition.{
  Parsed, and_then, is_word, is_open, is_close, is_quantifier, of_follows, after_of, skip_close,
  plain_atom, parse_quantifier, parse_or, or_loop, parse_and, and_loop, parse_not, parse_atom,
  parse_tokens,
}

-- There is a result, and it leaves at most `n` tokens.
abbrev Leaves : ℕ → Option Parsed → Type 0
Leaves n none = ⊥
Leaves n (some (e, rest, ka)) = length rest ≤ n

and_then-Leaves :
    (m n : ℕ) (p : Option Parsed) (f : SigmaCondExpr → List Text → Bool → Option Parsed)
    → Leaves m p
    → ((e : SigmaCondExpr) (rest : List Text) (ka : Bool)
        → length rest ≤ m
        → Leaves n (f e rest ka))
    → Leaves n (and_then p f)
and_then-Leaves m n none f h k = elim h [ ]
and_then-Leaves m n (some (e, rest, ka)) f h k = k e rest ka h

if-Leaves :
    (n : ℕ) (b : Bool) (p q : Option Parsed)
    → (b ≡ true → Leaves n p)
    → (b ≡ false → Leaves n q)
    → Leaves n (if b then p else q)
if-Leaves n b p q yes_case no_case = elim (Bool-cases b) [
  | inl e ↦ rw e (yes_case e)
  | inr e ↦ rw e (no_case e)
]

length-skip_close : (toks : List Text) → length (skip_close toks) ≤ length toks
length-skip_close [] = omega arith
length-skip_close (t ∷ toks) = elim (Bool-cases (is_close t)) [
  | inl e ↦ rw e (omega arith)
  | inr e ↦ rw e (omega arith)
]

plain_atom-Leaves :
    (names : List Text) (ka : Bool) (tok : Text) (toks : List Text)
    → Leaves (length toks) (some (plain_atom names ka tok toks))
unfolding plain_atom parse_quantifier
plain_atom-Leaves names ka tok toks = elim (Bool-cases (is_quantifier tok && of_follows toks)) [
  | inl e ↦ rw e (quantifier toks)
  | inr e ↦ elim (Bool-cases (is_word "keywords" tok)) [
    | inl k ↦ rw (e, k) (omega arith)
    | inr k ↦ rw (e, k) (omega arith)
  ]
]
  where
    quantifier :
        (ts : List Text) → Leaves (length ts) (some (parse_quantifier names ka tok (after_of ts)))
    quantifier [] = omega arith
    quantifier (o ∷ []) = omega arith
    quantifier (o ∷ t ∷ ts) = omega arith

mutual
  unfolding parse_or

  parse_or-Leaves :
      (f : ℕ) (names : List Text) (ka : Bool) (toks : List Text)
      → 8 * length toks + 4 ≤ f
      → Leaves (length toks) (parse_or f names ka toks)
  parse_or-Leaves zero names ka toks b = absurd (omega arith)
  parse_or-Leaves (suc f) names ka toks b =
      and_then-Leaves (length toks) (length toks) (parse_and f names ka toks) _
        (parse_and-Leaves f names ka toks (omega arith))
        (λ e rest k h. or_loop-Leaves f names k e rest (length toks) h (omega arith))

  or_loop-Leaves :
      (f : ℕ) (names : List Text) (ka : Bool) (left : SigmaCondExpr) (toks : List Text) (n : ℕ)
      → length toks ≤ n
      → 8 * length toks + 1 ≤ f
      → Leaves n (or_loop f names ka left toks)
  or_loop-Leaves zero names ka left toks n l b = absurd (omega arith)
  or_loop-Leaves (suc f) names ka left [] n l b = l
  or_loop-Leaves (suc f) names ka left (t ∷ toks) n l b =
      if-Leaves n (is_word "or" t) _ _
        (λ e.
          and_then-Leaves (length toks) n (parse_and f names ka toks) _
            (parse_and-Leaves f names ka toks (omega arith))
            (λ r rest k h.
              or_loop-Leaves f names k (either left r) rest n (omega arith) (omega arith)))
        (λ e. l)

  parse_and-Leaves :
      (f : ℕ) (names : List Text) (ka : Bool) (toks : List Text)
      → 8 * length toks + 3 ≤ f
      → Leaves (length toks) (parse_and f names ka toks)
  parse_and-Leaves zero names ka toks b = absurd (omega arith)
  parse_and-Leaves (suc f) names ka toks b =
      and_then-Leaves (length toks) (length toks) (parse_not f names ka toks) _
        (parse_not-Leaves f names ka toks (omega arith))
        (λ e rest k h. and_loop-Leaves f names k e rest (length toks) h (omega arith))

  and_loop-Leaves :
      (f : ℕ) (names : List Text) (ka : Bool) (left : SigmaCondExpr) (toks : List Text) (n : ℕ)
      → length toks ≤ n
      → 8 * length toks + 1 ≤ f
      → Leaves n (and_loop f names ka left toks)
  and_loop-Leaves zero names ka left toks n l b = absurd (omega arith)
  and_loop-Leaves (suc f) names ka left [] n l b = l
  and_loop-Leaves (suc f) names ka left (t ∷ toks) n l b =
      if-Leaves n (is_word "and" t) _ _
        (λ e.
          and_then-Leaves (length toks) n (parse_not f names ka toks) _
            (parse_not-Leaves f names ka toks (omega arith))
            (λ r rest k h.
              and_loop-Leaves f names k (both left r) rest n (omega arith) (omega arith)))
        (λ e. l)

  parse_not-Leaves :
      (f : ℕ) (names : List Text) (ka : Bool) (toks : List Text)
      → 8 * length toks + 2 ≤ f
      → Leaves (length toks) (parse_not f names ka toks)
  parse_not-Leaves zero names ka toks b = absurd (omega arith)
  parse_not-Leaves (suc f) names ka [] b = omega arith
  parse_not-Leaves (suc f) names ka (t ∷ toks) b =
      if-Leaves (suc (length toks)) (is_word "not" t) _ _
        (λ e.
          and_then-Leaves (length toks) (suc (length toks)) (parse_not f names ka toks) _
            (parse_not-Leaves f names ka toks (omega arith)) (λ r rest k h. omega arith))
        (λ e. parse_atom-Leaves f names ka t toks (omega arith))

  parse_atom-Leaves :
      (f : ℕ) (names : List Text) (ka : Bool) (tok : Text) (toks : List Text)
      → 8 * length toks + 5 ≤ f
      → Leaves (suc (length toks)) (parse_atom f names ka tok toks)
  parse_atom-Leaves zero names ka tok toks b = absurd (omega arith)
  parse_atom-Leaves (suc f) names ka tok toks b =
      if-Leaves (suc (length toks)) (is_open tok) _ _
        (λ e.
          and_then-Leaves (length toks) (suc (length toks)) (parse_or f names ka toks) _
            (parse_or-Leaves f names ka toks (omega arith))
            (λ r rest k h. omega (arith, length-skip_close rest)))
        (λ e. omega (arith, plain_atom-Leaves names ka tok toks))

-- A result that is there.
abbrev pub IsParsed : Option Parsed → Type 0
IsParsed p = (out : Parsed) × (p ≡ some out)

Leaves→IsParsed : (n : ℕ) (p : Option Parsed) → Leaves n p → IsParsed p
Leaves→IsParsed n none h = elim h [ ]
Leaves→IsParsed n (some out) h = (out, refl)

-- Every list of tokens, well formed or not, is parsed to some expression: the parser ends and the
-- fuel of eight units to a token is enough.
pub parse_tokens-IsParsed :
    (names : List Text) (ka : Bool) (toks : List Text) → IsParsed (parse_tokens names ka toks)
unfolding parse_tokens
parse_tokens-IsParsed names ka [] = (_, refl)
parse_tokens-IsParsed names ka (t ∷ toks) =
    Leaves→IsParsed (length (t ∷ toks)) _
      (parse_or-Leaves (8 * length (t ∷ toks) + 8) names ka (t ∷ toks) (omega arith))
