-- ===== src/Rules/Sigma/Compile.antt =====
-- pkg/rules/sigma_loader.go: the compilation of selectors. An error is `none`: its caller only skips
-- the field or the selector.
pub mod Modifiers
pub mod Lists
use gasha_sandbox.Common.{
  Bool, true, false, Option, none, some, List, [], ◌∷◌, ◌++◌, map, if◌then◌else◌,
}
use gasha_sandbox.Common.Text.{Text, String, codes, text_eq, lower, has_prefix}
use gasha_sandbox.Common.Words.{split}
use gasha_sandbox.Rules.Sigma.Types.{
  SigmaFieldMatcher, SigmaSelector, Scalar, nothing, text, printed, RawValue, items, one, RawBlock,
  mapping, sequence, single, Host, print_scalar,
}

unfoldable pub raw_values : RawValue → List Text
unfolding print_scalar
raw_values (items vs) = map print_scalar vs
raw_values (one nothing) = [] ∷ []
raw_values (one (text s)) = s ∷ []
raw_values (one (printed s)) = s ∷ []

-- What one modifier does: other values and flag, or the end.
pub data Step : Type 0 where
  next : List Text → Bool → Step
  finish : Option SigmaFieldMatcher → Step

abbrev pub plain_matcher : Text → List Text → Bool → SigmaFieldMatcher
plain_matcher field values all = record {
  field_name = field;
  values = values;
  regexes = [];
  match_all = all;
}

unfoldable pub surround : Text → Text
surround v = if has_prefix v (codes "*") then v else codes "*" ++ v ++ codes "*"

abbrev compiling : Host → List Text → List Text
compiling h [] = []
compiling h (re ∷ res) =
    let rest = compiling h res in if h.regexp_compiles re then re ∷ rest else rest

unfoldable pub regex_matcher : Host → Text → List Text → SigmaFieldMatcher
regex_matcher h field values = record {
  field_name = field;
  values = [];
  regexes = compiling h (map (λ v. codes "(?i)" ++ v) values);
  match_all = false;
}

unfoldable pub is_modifier : String → Text → Bool
is_modifier w m = text_eq (lower m) (codes w)

unfoldable pub apply_modifier : Host → Text → Text → List Text → Bool → Step
unfolding surround regex_matcher
apply_modifier h field m values all =
    if is_modifier "contains" m
    then next (map surround values) all
    else if is_modifier "startswith" m
    then next (map (λ v. v ++ codes "*") values) all
    else if is_modifier "endswith" m
    then next (map (λ v. codes "*" ++ v) values) all
    else if is_modifier "all" m
    then next values true
    else if is_modifier "re" m
    then finish (some (regex_matcher h field values))
    else if is_modifier "cidr" m
    then finish none
    else next values all

unfoldable pub apply_modifiers :
    Host → Text → List Text → List Text → Bool → Option SigmaFieldMatcher
unfolding apply_modifier
apply_modifiers h field [] values all = some (plain_matcher field values all)
apply_modifiers h field (m ∷ ms) values all = elim (apply_modifier h field m values all) [
  | next vs a ↦ apply_modifiers h field ms vs a
  | finish r ↦ r
]

abbrev pub compile_parts : Host → List Text → List Text → Option SigmaFieldMatcher
compile_parts h [] values = none
compile_parts h (field ∷ modifiers) values = apply_modifiers h field modifiers values false

unfoldable pub compile_field_matcher : Host → Text → RawValue → Option SigmaFieldMatcher
unfolding apply_modifiers raw_values
compile_field_matcher h field_spec value =
    compile_parts h (split b'|' field_spec) (raw_values value)

abbrev add_matcher : Option SigmaFieldMatcher → List SigmaFieldMatcher → List SigmaFieldMatcher
add_matcher none fms = fms
add_matcher (some fm) fms = fm ∷ fms

unfoldable pub compile_fields : Host → List (Text × RawValue) → List SigmaFieldMatcher
unfolding compile_field_matcher
compile_fields h [] = []
compile_fields h ((spec, value) ∷ fields) =
    add_matcher (compile_field_matcher h spec value) (compile_fields h fields)

unfoldable pub compile_selector : Host → Text → RawBlock → Option SigmaSelector
unfolding compile_fields
compile_selector h n (mapping fields) = some (record { name = n; fields = compile_fields h fields })
compile_selector h n (sequence vs) =
    some
      (record { name = n; fields = plain_matcher (codes "_any") (map print_scalar vs) false ∷ [] })
compile_selector h n (single v) = none
