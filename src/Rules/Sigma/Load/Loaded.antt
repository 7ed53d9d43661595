-- ===== src/Rules/Sigma/Load/Loaded.antt =====
-- Which files give a rule, and what a file with no condition gives.
use gasha_sandbox.Common.{
  ◌≡◌, refl, sym, ap, inl, inr, Bool, true, false, ◌&&◌, not, Option, none, some, List, [], is_nil,
  Bool-cases, some_cancel, arith,
}
use gasha_sandbox.Common.Text.{Text, codes, text_eq, lower, lookup}
use gasha_sandbox.Common.Words.{trim_space, scan_int, fields, replace_byte}
use gasha_sandbox.Monitor.Events.{Event}
use gasha_sandbox.Rules.Sigma.Types.{CompiledSigmaRule, name, RawBlock, SigmaRuleFile, Host}
use gasha_sandbox.Rules.Sigma.Eval.{matches, named_matches, eval_expr_depth}
use gasha_sandbox.Rules.Sigma.Condition.{
  tokenise_cond, parse_cond_expr, plain_atom, is_word, is_open, is_quantifier,
}
use gasha_sandbox.Rules.Sigma.Condition.Total.{parse_tokens-IsParsed}
use gasha_sandbox.Rules.Sigma.Load.{print_raw, compile_detection, compile_rule, parse_sigma_rule}

abbrev pub is_loaded : Option CompiledSigmaRule → Bool
is_loaded none = false
is_loaded (some rule) = true

abbrev pub is_given {ℓ} : {A : Type ℓ} → Option A → Bool
is_given none = false
is_given (some d) = true

compile_rule-is_loaded :
    (h : Host) (raw : SigmaRuleFile) (detection : List (Text × RawBlock))
    → is_loaded (compile_rule h raw detection) ≡ true
unfolding compile_rule parse_cond_expr
compile_rule-is_loaded h raw detection = rw (parse_tokens-IsParsed _ _ _).1 refl

compile_detection-is_loaded :
    (h : Host) (raw : SigmaRuleFile) (detection : Option (List (Text × RawBlock)))
    → is_loaded (compile_detection h raw detection) ≡ (not (is_nil raw.title) && is_given detection)
compile_detection-is_loaded h raw none = ground arith
compile_detection-is_loaded h raw (some d) = elim (Bool-cases (is_nil raw.title)) [
  | inl e ↦ rw e refl
  | inr e ↦ rw (e, compile_rule-is_loaded h raw d) refl
]

-- A file is a rule exactly when it has a title and a detection: whatever its condition is, well
-- formed or not, the loader ends with a rule.
pub parse_sigma_rule-is_loaded :
    (h : Host) (raw : SigmaRuleFile)
    → is_loaded (parse_sigma_rule h raw) ≡ (not (is_nil raw.title) && is_given raw.detection)
unfolding parse_sigma_rule
parse_sigma_rule-is_loaded h raw = compile_detection-is_loaded h raw raw.detection

nil_condition :
    (names : List Text) (all : Bool)
    → parse_cond_expr names all (trim_space (codes "<nil>")) ≡ some (name (codes "<nil>"), [], all)
unfolding parse_cond_expr trim_space codes plain_atom is_word is_open is_quantifier scan_int lower
    text_eq tokenise_cond fields replace_byte
nil_condition names all = refl

compile_rule-no_condition :
    (h : Host) (raw : SigmaRuleFile) (detection : List (Text × RawBlock)) (rule : CompiledSigmaRule)
    → lookup (codes "condition") detection ≡ none
    → compile_rule h raw detection ≡ some rule
    → rule.cond_expr ≡ name (codes "<nil>")
unfolding compile_rule print_raw
compile_rule-no_condition h raw detection rule missing loaded =
    sym (ap (λ r. r.cond_expr) (some_cancel (rw (missing, nil_condition _ _) at loaded)))

nil_text : is_nil (codes "<nil>") ≡ false
unfolding codes
nil_text = refl

-- A rule whose detection has no condition matches no event, unless a selector is called "<nil>".
pub parse_sigma_rule-no_condition :
    (h : Host) (raw : SigmaRuleFile) (detection : List (Text × RawBlock)) (rule : CompiledSigmaRule)
    (ev : Event)
    → raw.detection ≡ some detection
    → lookup (codes "condition") detection ≡ none
    → parse_sigma_rule h raw ≡ some rule
    → lookup (codes "<nil>") rule.selector_map ≡ none
    → matches h rule ev ≡ false
unfolding parse_sigma_rule matches named_matches eval_expr_depth
parse_sigma_rule-no_condition h raw detection rule ev given missing loaded unnamed =
    rw (condition_lem, nil_text, unnamed) refl
  where
    condition_lem : rule.cond_expr ≡ name (codes "<nil>")
    condition_lem = elim (Bool-cases (is_nil raw.title)) [
      | inl e ↦ cc (rw (given, e) at loaded)
      | inr e ↦ compile_rule-no_condition h raw detection rule missing (rw (given, e) at loaded)
    ]
