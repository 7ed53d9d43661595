-- ===== src/Rules/Sigma/Condition/Print.antt =====
-- The tokens that a condition of pkg/rules/sigma_loader.go is written with.
use gasha_sandbox.Common.{zero, suc, ◌^◌, Bool, true, false, ◌&&◌, not, List, [], ◌∷◌, ◌++◌, ltb}
use gasha_sandbox.Common.Text.{Text, codes, decimal}
use gasha_sandbox.Common.Ints.{ℤ, pos, negsuc}
use gasha_sandbox.Rules.Sigma.Types.{
  SigmaCondExpr, name, wildcard, both, either, negation, keywords,
}
use gasha_sandbox.Rules.Sigma.Condition.{is_word, is_open, is_quantifier}

-- How much is put into parentheses: nothing, an "or", or also an "and".
pub data Level : Type 0 where
  any_level : Level
  conjunct : Level
  operand : Level

abbrev pub parens : List Text → List Text
parens toks = codes "(" ∷ (toks ++ codes ")" ∷ [])

abbrev pub either_at : Level → List Text → List Text
either_at any_level toks = toks
either_at conjunct toks = parens toks
either_at operand toks = parens toks

abbrev pub both_at : Level → List Text → List Text
both_at any_level toks = toks
both_at conjunct toks = toks
both_at operand toks = parens toks

unfoldable pub print_count : ℤ → Text
print_count (pos n) = decimal n
print_count (negsuc n) = codes "all"

-- The operators associate to the left.
unfoldable pub print_expr : SigmaCondExpr → Level → List Text
print_expr (name n) level = n ∷ []
print_expr keywords level = codes "keywords" ∷ []
print_expr (wildcard prefix n) level = print_count n ∷ codes "of" ∷ (prefix ++ codes "*") ∷ []
print_expr (either l r) level =
    either_at level (print_expr l any_level ++ codes "or" ∷ print_expr r conjunct)
print_expr (both l r) level =
    both_at level (print_expr l conjunct ++ codes "and" ∷ print_expr r operand)
print_expr (negation e) level = codes "not" ∷ print_expr e operand

unfoldable pub print_cond : SigmaCondExpr → List Text
unfolding print_expr
print_cond e = print_expr e any_level

-- A name that is no keyword of the language and no number, and a count from one up that an `int` holds.
abbrev pub is_proper_name : Text → Bool
is_proper_name n =
    not (is_open n)
    && (not (is_word "not" n) && (not (is_word "keywords" n) && not (is_quantifier n)))

abbrev pub is_proper_count : ℤ → Bool
is_proper_count (pos zero) = false
is_proper_count (pos (suc n)) = ltb (suc n) (2 ^ 63)
is_proper_count (negsuc n) = false

unfoldable pub is_proper : SigmaCondExpr → Bool
is_proper (name n) = is_proper_name n
is_proper keywords = true
is_proper (wildcard prefix n) = is_proper_count n
is_proper (either l r) = is_proper l && is_proper r
is_proper (both l r) = is_proper l && is_proper r
is_proper (negation e) = is_proper e
