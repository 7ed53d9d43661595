-- ===== src/Rules/Yara/Match/Negation.antt =====
-- What becomes of a rule with a negated condition.
use gasha_sandbox.Common.{
  ◌≡◌, refl, ◌∙◌, inl, inr, Bool, false, List, [], ◌∷◌, is_nil, All, Bool-cases,
}
use gasha_sandbox.Common.Text.{Text, codes, text_eq, text_eq→≡, lower}
use gasha_sandbox.Rules.Yara.Types.{YaraPattern, mode_bool_expr, ExternalYaraRule, Regexps}
use gasha_sandbox.Rules.Yara.Match.{
  MatchSet, set_match, is_matched, match_all, match_pattern, eval_condition, triggered, rule_hits,
}
use gasha_sandbox.Rules.Yara.Match.Boolean.{Without, eval_bool_tokens-not}

set_match_other :
    (id other : Text) (ok : Bool) (m : MatchSet)
    → text_eq id other ≡ false
    → is_matched (set_match id ok m) other ≡ is_matched m other
unfolding set_match is_matched
set_match_other id other ok [] d = rw d refl
set_match_other id other ok ((j, old) ∷ m) d = elim (Bool-cases (text_eq j id)) [
  | inl e ↦ rw (e, text_eq→≡ j id e, d) refl
  | inr e ↦ elim (Bool-cases (text_eq j other)) [
    | inl f ↦ rw (e, f) refl
    | inr f ↦ rw (e, f) (set_match_other id other ok m d)
  ]
]

abbrev pub IsUnnamed : Text → List YaraPattern → Type 0
IsUnnamed id ps = All (λ p. text_eq p.id id ≡ false) ps

match_all_unnamed :
    (h : Regexps) (id : Text) (ps : List YaraPattern) (buf low : Text) (m : MatchSet)
    → IsUnnamed id ps
    → is_matched (match_all h ps buf low m) id ≡ is_matched m id
unfolding match_all
match_all_unnamed h id [] buf low m d = refl
match_all_unnamed h id (p ∷ ps) buf low m d =
    match_all_unnamed h id ps buf low (set_match p.id (match_pattern h p buf low) m) d.1
    ∙ set_match_other p.id id (match_pattern h p buf low) m d.0

triggered-not :
    (h : Regexps) (rule : ExternalYaraRule) (buf : Text) (ts : List Text)
    → rule.condition.mode ≡ mode_bool_expr
    → rule.condition.bool_tokens ≡ codes "not" ∷ ts
    → Without "or" ts
    → IsUnnamed (codes "not") rule.patterns
    → (triggered h rule buf).0 ≡ false
unfolding eval_condition is_matched
triggered-not h rule buf ts mode tokens no_or unnamed =
    rw (mode, tokens)
      (eval_bool_tokens-not (match_all h rule.patterns buf (lower buf) []) ts no_or
        (match_all_unnamed h (codes "not") rule.patterns buf (lower buf) [] unnamed))

-- A rule whose condition is read as a Boolean expression, with tokens that start with "not" and none of
-- which is "or", gives no hit of any data, unless a pattern of it is called "not".
pub rule_hits-not :
    (h : Regexps) (rule : ExternalYaraRule) (rules : List ExternalYaraRule) (buf label : Text)
    (ts : List Text)
    → rule.condition.mode ≡ mode_bool_expr
    → rule.condition.bool_tokens ≡ codes "not" ∷ ts
    → Without "or" ts
    → IsUnnamed (codes "not") rule.patterns
    → rule_hits h buf label (rule ∷ rules) ≡ rule_hits h buf label rules
unfolding rule_hits
rule_hits-not h rule rules buf label ts mode tokens no_or unnamed =
    let silent = triggered-not h rule buf ts mode tokens no_or unnamed in
    elim (Bool-cases (is_nil rule.patterns)) [ inl e ↦ rw e refl | inr e ↦ rw (e, silent) refl ]
