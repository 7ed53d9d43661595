-- ===== src/Rules/Sigma/Condition/Reads.antt =====
-- What each level of the parser makes of the tokens of a condition, whatever follows them.
use gasha_sandbox.Common.{
  ℕ, zero, suc, ◌+◌, ◌*◌, ◌≤◌, ◌<◌, ◌^◌, ◌≡◌, refl, ap, Bool, true, false, Option, some, List, [],
  ◌∷◌, ◌++◌, arith, length, length-append, append_assoc,
}
use gasha_sandbox.Common.Text.{Text, codes, text_eq, lower, decimal}
use gasha_sandbox.Common.Words.{scan_int}
use gasha_sandbox.Common.Ints.{pos}
use gasha_sandbox.Rules.Sigma.Types.{
  SigmaCondExpr, name, wildcard, both, either, negation, keywords,
}
use gasha_sandbox.Rules.Sigma.Condition.Print.{parens, is_proper_name}
use gasha_sandbox.Rules.Sigma.Condition.Count.{decimal-is_word, decimal-is_open, plain_atom-decimal}
use gasha_sandbox.Rules.Sigma.Condition.{
  Parsed, is_word, is_open, is_close, is_quantifier, plain_atom, parse_or, or_loop, parse_and,
  and_loop, parse_not,
}

-- What follows is no "and", which would belong to the expression before.
abbrev pub starts_and : List Text → Bool
starts_and [] = false
starts_and (t ∷ toks) = is_word "and" t

abbrev pub starts_or : List Text → Bool
starts_or [] = false
starts_or (t ∷ toks) = is_word "or" t

and_loop-stop :
    (names : List Text) (ka : Bool) (e : SigmaCondExpr) (rest : List Text)
    → starts_and rest ≡ false
    → (g : ℕ) → 1 ≤ g
    → and_loop g names ka e rest ≡ some (e, rest, ka)
unfolding and_loop
and_loop-stop names ka e rest s zero b = absurd (omega arith)
and_loop-stop names ka e [] s (suc g) b = refl
and_loop-stop names ka e (t ∷ rest) s (suc g) b = rw s refl

pub or_loop-stop :
    (names : List Text) (ka : Bool) (e : SigmaCondExpr) (rest : List Text)
    → starts_or rest ≡ false
    → (g : ℕ) → 1 ≤ g
    → or_loop g names ka e rest ≡ some (e, rest, ka)
unfolding or_loop
or_loop-stop names ka e rest s zero b = absurd (omega arith)
or_loop-stop names ka e [] s (suc g) b = refl
or_loop-stop names ka e (t ∷ rest) s (suc g) b = rw s refl

-- The tokens `ts` are read as `e` where an operand is expected; where a conjunction is, the loop
-- that comes after is the rest of the reading; likewise where a disjunction is.
module _ (names : List Text) where
  abbrev pub ReadsNot : List Text → SigmaCondExpr → Type 0
  ReadsNot ts e =
      (rest : List Text) (ka : Bool) (f : ℕ)
      → 8 * length ts + 2 ≤ f
      → parse_not f names ka (ts ++ rest) ≡ some (e, rest, ka)

  abbrev pub ReadsAnd : List Text → SigmaCondExpr → Type 0
  ReadsAnd ts e =
      (rest : List Text) (ka : Bool) (out : Option Parsed) (g0 : ℕ)
      → ((g : ℕ) → g0 ≤ g → and_loop g names ka e rest ≡ out)
      → (f : ℕ) → g0 + 8 * length ts + 3 ≤ f
      → parse_and f names ka (ts ++ rest) ≡ out

  abbrev pub ReadsOr : List Text → SigmaCondExpr → Type 0
  ReadsOr ts e =
      (rest : List Text) (ka : Bool) (out : Option Parsed) (g0 : ℕ)
      → starts_and rest ≡ false
      → ((g : ℕ) → g0 ≤ g → or_loop g names ka e rest ≡ out)
      → (f : ℕ) → g0 + 8 * length ts + 5 ≤ f
      → parse_or f names ka (ts ++ rest) ≡ out

  pub ReadsNot→ReadsAnd : (ts : List Text) (e : SigmaCondExpr) → ReadsNot ts e → ReadsAnd ts e
  unfolding parse_and
  ReadsNot→ReadsAnd ts e h rest ka out g0 k zero b = absurd (omega arith)
  ReadsNot→ReadsAnd ts e h rest ka out g0 k (suc f) b =
      rw (h rest ka f (omega arith)) (k f (omega arith))

  pub ReadsAnd→ReadsOr : (ts : List Text) (e : SigmaCondExpr) → ReadsAnd ts e → ReadsOr ts e
  unfolding parse_or
  ReadsAnd→ReadsOr ts e h rest ka out g0 s k zero b = absurd (omega arith)
  ReadsAnd→ReadsOr ts e h rest ka out g0 s k (suc f) b =
      rw (h rest ka (some (e, rest, ka)) 1 (and_loop-stop names ka e rest s) f (omega arith))
        (k f (omega arith))

  pub parens-ReadsNot : (ts : List Text) (e : SigmaCondExpr) → ReadsOr ts e → ReadsNot (parens ts) e
  unfolding parse_not is_word is_open is_close lower codes text_eq
  parens-ReadsNot ts e h rest ka zero b = absurd (omega arith)
  parens-ReadsNot ts e h rest ka (suc zero) b =
      absurd (omega (arith, length-append ts (codes ")" ∷ [])))
  parens-ReadsNot ts e h rest ka (suc (suc f)) b =
      rw
        (
          append_assoc ts (codes ")" ∷ []) rest,
          h (codes ")" ∷ rest) ka (some (e, codes ")" ∷ rest, ka)) 1 refl
              (or_loop-stop names ka e (codes ")" ∷ rest) refl) f
              (omega (arith, length-append ts (codes ")" ∷ []))),
        )
        refl

  pub negation-ReadsNot :
      (ts : List Text) (e : SigmaCondExpr)
      → ReadsNot ts e
      → ReadsNot (codes "not" ∷ ts) (negation e)
  unfolding parse_not is_word lower codes text_eq
  negation-ReadsNot ts e h rest ka zero b = absurd (omega arith)
  negation-ReadsNot ts e h rest ka (suc f) b = rw (h rest ka f (omega arith)) refl

  pub both-ReadsAnd :
      (ls rs : List Text) (l r : SigmaCondExpr)
      → ReadsAnd ls l
      → ReadsNot rs r
      → ReadsAnd (ls ++ codes "and" ∷ rs) (both l r)
  unfolding and_loop is_word lower codes text_eq
  both-ReadsAnd ls rs l r hl hr rest ka out g0 k f b =
      rw (append_assoc ls (codes "and" ∷ rs) rest) (
        hl (codes "and" ∷ rs ++ rest) ka out (g0 + 8 * length rs + 3) loop f
          (omega (arith, length-append ls (codes "and" ∷ rs))))
    where
      loop :
          (g : ℕ)
          → g0 + 8 * length rs + 3 ≤ g
          → and_loop g names ka l (codes "and" ∷ rs ++ rest) ≡ out
      loop zero c = absurd (omega arith)
      loop (suc g) c = rw (hr rest ka g (omega arith)) (k g (omega arith))

  pub either-ReadsOr :
      (ls rs : List Text) (l r : SigmaCondExpr)
      → ReadsOr ls l
      → ReadsAnd rs r
      → ReadsOr (ls ++ codes "or" ∷ rs) (either l r)
  unfolding or_loop is_word lower codes text_eq
  either-ReadsOr ls rs l r hl hr rest ka out g0 s k f b =
      rw (append_assoc ls (codes "or" ∷ rs) rest) (
        hl (codes "or" ∷ rs ++ rest) ka out (g0 + 8 * length rs + 5) refl loop f
          (omega (arith, length-append ls (codes "or" ∷ rs))))
    where
      loop :
          (g : ℕ)
          → g0 + 8 * length rs + 5 ≤ g
          → or_loop g names ka l (codes "or" ∷ rs ++ rest) ≡ out
      loop zero c = absurd (omega arith)
      loop (suc g) c =
          rw (hr rest ka (some (r, rest, ka)) 1 (and_loop-stop names ka r rest s) g (omega arith))
            (k g (omega arith))

  pub name-ReadsNot : (n : Text) → is_proper_name n ≡ true → ReadsNot (n ∷ []) (name n)
  unfolding parse_not plain_atom
  name-ReadsNot n p rest ka zero b = absurd (omega arith)
  name-ReadsNot n p rest ka (suc zero) b = absurd (omega arith)
  name-ReadsNot n p rest ka (suc (suc f)) b = ground (arith, p)

  pub keywords-ReadsNot : ReadsNot (codes "keywords" ∷ []) keywords
  unfolding parse_not plain_atom is_word is_open is_quantifier lower codes text_eq scan_int
  keywords-ReadsNot rest ka zero b = absurd (omega arith)
  keywords-ReadsNot rest ka (suc zero) b = absurd (omega arith)
  keywords-ReadsNot rest ka (suc (suc f)) b = refl

pub wildcard-ReadsNot :
    (names : List Text) (prefix : Text) (n : ℕ)
    → 1 ≤ n
    → n < 2 ^ 63
    → ReadsNot names (decimal n ∷ codes "of" ∷ (prefix ++ codes "*") ∷ []) (wildcard prefix (pos n))
unfolding parse_not
wildcard-ReadsNot names prefix n l u rest ka zero b = absurd (omega arith)
wildcard-ReadsNot names prefix n l u rest ka (suc zero) b = absurd (omega arith)
wildcard-ReadsNot names prefix n l u rest ka (suc (suc f)) b =
    rw (decimal-is_word n u "not" (unfold scan_int codes in refl), decimal-is_open n u)
      (ap some (plain_atom-decimal names ka prefix n rest l u))
