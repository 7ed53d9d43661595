-- ===== src/Rules/Sigma/Eval.antt =====
-- pkg/rules/sigma_loader.go: the evaluation of a condition, and its meaning.
use gasha_sandbox.Common.{
  ℕ, suc, ◌+◌, ◌≤◌, ◌≡◌, refl, Bool, false, ◌&&◌, ◌||◌, not, Option, none, some, [], ◌∷◌, ltb,
  if◌then◌else◌, is_nil, arith,
}
use gasha_sandbox.Common.Text.{Text, has_prefix, lookup}
use gasha_sandbox.Common.Ints.{ℤ, pos, less}
use gasha_sandbox.Monitor.Events.{Event}
use gasha_sandbox.Rules.Sigma.Types.{
  SigmaSelector, SelectorMap, SigmaCondExpr, name, wildcard, both, either, negation, keywords,
  CompiledSigmaRule, Host,
}
use gasha_sandbox.Rules.Sigma.Fields.{selector_matches_event, eval_keywords}
use Prim.Native.Nat.{max}

abbrev pub max_expr_depth : ℕ
max_expr_depth = 64

-- The selectors whose name has the prefix and that match.
unfoldable pub match_count : Host → Text → SelectorMap → Event → ℕ
match_count h prefix [] ev = 0
match_count h prefix ((n, sel) ∷ m) ev =
    (if has_prefix n prefix && selector_matches_event h sel ev then 1 else 0)
    + match_count h prefix m ev

abbrev pub matches_option : Host → Option SigmaSelector → Event → Bool
matches_option h none ev = false
matches_option h (some sel) ev = selector_matches_event h sel ev

unfoldable pub named_matches : Host → Text → CompiledSigmaRule → Event → Bool
named_matches h n rule ev =
    if is_nil n then false else matches_option h (lookup n rule.selector_map) ev

unfoldable pub counted_matches : Host → Text → ℤ → CompiledSigmaRule → Event → Bool
unfolding match_count
counted_matches h prefix min_count rule ev =
    not (less (pos (match_count h prefix rule.selector_map ev)) min_count)

-- `evalExprDepth`: past the greatest depth the answer is false.
unfoldable pub eval_expr_depth : Host → SigmaCondExpr → CompiledSigmaRule → Event → ℕ → Bool
unfolding named_matches counted_matches
eval_expr_depth h (name n) rule ev depth =
    if ltb max_expr_depth depth then false else named_matches h n rule ev
eval_expr_depth h keywords rule ev depth =
    if ltb max_expr_depth depth then false else eval_keywords h rule ev
eval_expr_depth h (wildcard prefix min_count) rule ev depth =
    if ltb max_expr_depth depth then false else counted_matches h prefix min_count rule ev
eval_expr_depth h (both l r) rule ev depth =
    if ltb max_expr_depth depth
    then false
    else eval_expr_depth h l rule ev (depth + 1) && eval_expr_depth h r rule ev (depth + 1)
eval_expr_depth h (either l r) rule ev depth =
    if ltb max_expr_depth depth
    then false
    else eval_expr_depth h l rule ev (depth + 1) || eval_expr_depth h r rule ev (depth + 1)
eval_expr_depth h (negation e) rule ev depth =
    if ltb max_expr_depth depth then false else not (eval_expr_depth h e rule ev (depth + 1))

unfoldable pub matches : Host → CompiledSigmaRule → Event → Bool
matches h rule ev = eval_expr_depth h rule.cond_expr rule ev 0

-- What a condition means, with no bound on its depth.
unfoldable pub holds : Host → CompiledSigmaRule → Event → SigmaCondExpr → Bool
holds h rule ev (name n) = named_matches h n rule ev
holds h rule ev keywords = eval_keywords h rule ev
holds h rule ev (wildcard prefix min_count) = counted_matches h prefix min_count rule ev
holds h rule ev (both l r) = holds h rule ev l && holds h rule ev r
holds h rule ev (either l r) = holds h rule ev l || holds h rule ev r
holds h rule ev (negation e) = not (holds h rule ev e)

-- The longest way from the root to a leaf.
unfoldable pub height : SigmaCondExpr → ℕ
height (name n) = 0
height keywords = 0
height (wildcard prefix min_count) = 0
height (both l r) = suc (max (height l) (height r))
height (either l r) = suc (max (height l) (height r))
height (negation e) = suc (height e)

eval_expr_depth-holds :
    (h : Host) (e : SigmaCondExpr) (rule : CompiledSigmaRule) (ev : Event) (depth : ℕ)
    → depth + height e ≤ max_expr_depth
    → eval_expr_depth h e rule ev depth ≡ holds h rule ev e
unfolding eval_expr_depth holds height
eval_expr_depth-holds h (name n) rule ev depth b =
    let e : ltb 64 depth ≡ false = ground arith in rw e refl
eval_expr_depth-holds h keywords rule ev depth b =
    let e : ltb 64 depth ≡ false = ground arith in rw e refl
eval_expr_depth-holds h (wildcard p n) rule ev depth b =
    let e : ltb 64 depth ≡ false = ground arith in rw e refl
eval_expr_depth-holds h (both l r) rule ev depth b =
    let e : ltb 64 depth ≡ false = ground arith in
    rw
      (
        e,
        eval_expr_depth-holds h l rule ev (depth + 1) (omega arith),
        eval_expr_depth-holds h r rule ev (depth + 1) (omega arith),
      )
      refl
eval_expr_depth-holds h (either l r) rule ev depth b =
    let e : ltb 64 depth ≡ false = ground arith in
    rw
      (
        e,
        eval_expr_depth-holds h l rule ev (depth + 1) (omega arith),
        eval_expr_depth-holds h r rule ev (depth + 1) (omega arith),
      )
      refl
eval_expr_depth-holds h (negation x) rule ev depth b =
    let e : ltb 64 depth ≡ false = ground arith in
    rw (e, eval_expr_depth-holds h x rule ev (depth + 1) (omega arith)) refl

-- A rule whose condition is at most 64 deep matches an event exactly when its condition holds.
pub matches-holds :
    (h : Host) (rule : CompiledSigmaRule) (ev : Event)
    → height rule.cond_expr ≤ max_expr_depth
    → matches h rule ev ≡ holds h rule ev rule.cond_expr
unfolding matches
matches-holds h rule ev b = eval_expr_depth-holds h rule.cond_expr rule ev 0 (omega arith)
