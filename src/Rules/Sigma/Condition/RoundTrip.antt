-- ===== src/Rules/Sigma/Condition/RoundTrip.antt =====
-- The tokens that a condition is written with are read back as that condition.
use gasha_sandbox.Common.{
  zero, suc, ◌+◌, ◌*◌, ◌≤◌, ◌≡◌, refl, Bool, true, some, List, [], ◌∷◌, arith, length,
  length-append, append-nil,
}
use gasha_sandbox.Common.Text.{Text, codes}
use gasha_sandbox.Common.Ints.{pos, negsuc}
use gasha_sandbox.Rules.Sigma.Types.{
  SigmaCondExpr, name, wildcard, both, either, negation, keywords,
}
use gasha_sandbox.Rules.Sigma.Condition.Print.{
  any_level, conjunct, operand, print_count, print_expr, print_cond, is_proper,
}
use gasha_sandbox.Rules.Sigma.Condition.{parse_or, parse_tokens}
use gasha_sandbox.Rules.Sigma.Condition.Reads.{
  ReadsNot, ReadsAnd, ReadsOr, or_loop-stop, ReadsNot→ReadsAnd, ReadsAnd→ReadsOr, parens-ReadsNot,
  negation-ReadsNot, both-ReadsAnd, either-ReadsOr, name-ReadsNot, keywords-ReadsNot,
  wildcard-ReadsNot,
}

-- A printed condition is read at every level.
module _ (names : List Text) where
  abbrev ReadsAll : SigmaCondExpr → Type 0
  ReadsAll e =
      ReadsOr names (print_expr e any_level) e
      × ReadsAnd names (print_expr e conjunct) e
      × ReadsNot names (print_expr e operand) e

  -- What is printed in the same way at every level.
  operand-ReadsAll :
      (ts : List Text) (e : SigmaCondExpr)
      → ReadsNot names ts e
      → ReadsOr names ts e × ReadsAnd names ts e × ReadsNot names ts e
  operand-ReadsAll ts e h =
      let conj = ReadsNot→ReadsAnd names ts e h in (ReadsAnd→ReadsOr names ts e conj, conj, h)

  print_expr-ReadsAll : (e : SigmaCondExpr) → is_proper e ≡ true → ReadsAll e
  unfolding print_expr is_proper print_count
  print_expr-ReadsAll (name n) p = operand-ReadsAll (n ∷ []) (name n) (name-ReadsNot names n p)
  print_expr-ReadsAll keywords p =
      operand-ReadsAll (codes "keywords" ∷ []) keywords (keywords-ReadsNot names)
  print_expr-ReadsAll (wildcard prefix (pos zero)) p = cc
  print_expr-ReadsAll (wildcard prefix (pos (suc n))) p =
      operand-ReadsAll (print_expr (wildcard prefix (pos (suc n))) operand)
        (wildcard prefix (pos (suc n)))
        (wildcard-ReadsNot names prefix (suc n) (omega arith) (ground arith))
  print_expr-ReadsAll (wildcard prefix (negsuc n)) p = cc
  print_expr-ReadsAll (either l r) p =
      let hl = print_expr-ReadsAll l (ground arith) in
      let hr = print_expr-ReadsAll r (ground arith) in
      let here = either-ReadsOr names _ _ l r hl.0 hr.1 in
      let inner = parens-ReadsNot names _ (either l r) here in
      (here, ReadsNot→ReadsAnd names (print_expr (either l r) conjunct) (either l r) inner, inner)
  print_expr-ReadsAll (both l r) p =
      let hl = print_expr-ReadsAll l (ground arith) in
      let hr = print_expr-ReadsAll r (ground arith) in
      let here = both-ReadsAnd names _ _ l r hl.1 hr.2 in
      let outer = ReadsAnd→ReadsOr names _ (both l r) here in
      (outer, here, parens-ReadsNot names _ (both l r) outer)
  print_expr-ReadsAll (negation e) p =
      operand-ReadsAll (print_expr (negation e) operand) (negation e)
        (negation-ReadsNot names _ e (print_expr-ReadsAll e (ground arith)).2)

  length-print_expr : (e : SigmaCondExpr) → 1 ≤ length (print_expr e any_level)
  unfolding print_expr
  length-print_expr (name n) = omega arith
  length-print_expr keywords = omega arith
  length-print_expr (wildcard prefix n) = omega arith
  length-print_expr (either l r) =
      omega (arith, length-append (print_expr l any_level) (codes "or" ∷ print_expr r conjunct))
  length-print_expr (both l r) =
      omega (arith, length-append (print_expr l conjunct) (codes "and" ∷ print_expr r operand))
  length-print_expr (negation e) = omega arith

  parse_tokens-nonempty :
      (ka : Bool) (ts : List Text)
      → 1 ≤ length ts
      → parse_tokens names ka ts ≡ parse_or (8 * length ts + 8) names ka ts
  unfolding parse_tokens
  parse_tokens-nonempty ka [] h = absurd (omega arith)
  parse_tokens-nonempty ka (t ∷ ts) h = refl

  -- A condition of proper names and counts, written with the parentheses that it needs, is parsed
  -- back as itself, with no token left and the flag of the keywords as it was.
  pub parse_tokens-print_cond :
      (ka : Bool) (e : SigmaCondExpr)
      → is_proper e ≡ true
      → parse_tokens names ka (print_cond e) ≡ some (e, [], ka)
  unfolding parse_tokens print_cond
  parse_tokens-print_cond ka e p =
      let toks = print_expr e any_level in
      let read =
        (print_expr-ReadsAll e p).0 [] ka (some (e, [], ka)) 1 refl
          (or_loop-stop names ka e [] refl) (8 * length toks + 8) (omega arith) in
      rw (parse_tokens-nonempty ka toks (length-print_expr e)) (rw (append-nil toks) at read)
