-- ===== src/Rules/Yara/Parse/Condition.antt =====
-- pkg/rules/yara_loader.go: conditions.
use gasha_sandbox.Common.{
  ℕ, Bool, ◌&&◌, ◌||◌, Option, none, some, List, [], ◌∷◌, ◌++◌, ◌==◌, if◌then◌else◌, is_nil,
}
use gasha_sandbox.Common.Text.{Text, codes, text_eq, lower, contains, contains_byte, trim_suffix}
use gasha_sandbox.Common.Words.{fields, trim, trim_space}
use gasha_sandbox.Common.Find.{cut, atoi}
use gasha_sandbox.Common.Ints.{ℤ, pos}
use gasha_sandbox.Rules.Yara.Types.{
  CondMode, mode_any, mode_all, mode_count, mode_bool_expr, YaraCondition,
}
use gasha_sandbox.Rules.Yara.Match.{join}

abbrev pub of_mode : CondMode → YaraCondition
of_mode mode = record { mode = mode; min_count = pos 0; group_prefix = []; bool_tokens = [] }

abbrev is_paren : ℕ → Bool
is_paren c = c == b'(' || c == b')'

abbrev trim_parens : List Text → List Text
trim_parens [] = []
trim_parens (w ∷ ws) =
    let rest = trim_parens ws in
    let word = trim is_paren w in if is_nil word then rest else word ∷ rest

unfoldable pub tokenise_bool_expr : Text → List Text
tokenise_bool_expr expr = trim_parens (fields expr)

abbrev group_end : Option (Text × Text) → Option Text
group_end none = none
group_end (some (inner, rest)) = some (codes "$" ++ trim_suffix inner (codes "*"))

abbrev group_start : Option (Text × Text) → Option Text
group_start none = none
group_start (some (before, rest)) = group_end (cut (codes ")") rest)

-- The prefix of "any of ($prefix*)".
unfoldable pub group_of : Text → Option Text
unfolding cut trim_suffix
group_of expr = group_start (cut (codes "any of ($") expr)

abbrev first_some : Option ℤ → Option ℤ → Option ℤ
first_some none later = later
first_some (some n) later = some n

-- The number before the first "of" that has one before it.
unfoldable pub count_from : Text → List Text → Option ℤ
unfolding atoi
count_from previous [] = none
count_from previous (f ∷ fs) =
    let later = count_from f fs in
    if text_eq f (codes "of") then first_some (atoi previous) later else later

abbrev count_of : List Text → Option ℤ
count_of [] = none
count_of (f ∷ fs) = count_from f fs

abbrev count_or : Option ℤ → YaraCondition → YaraCondition
count_or none other = other
count_or (some n) other = record {
  mode = mode_count;
  min_count = n;
  group_prefix = [];
  bool_tokens = [];
}

abbrev group_or : Option Text → YaraCondition → YaraCondition
group_or none other = other
group_or (some prefix) other = record {
  mode = mode_any;
  min_count = pos 0;
  group_prefix = prefix;
  bool_tokens = [];
}

unfoldable pub bool_or_any : Text → YaraCondition
unfolding tokenise_bool_expr
bool_or_any expr =
    let has_bool =
      contains expr (codes " and ")
      || (contains expr (codes " or ") || contains expr (codes "not ")) in
    if has_bool && contains_byte b'$' expr
    then record {
      mode = mode_bool_expr;
      min_count = pos 0;
      group_prefix = [];
      bool_tokens = tokenise_bool_expr expr;
    }
    else of_mode mode_any

unfoldable pub parse_condition_expr : List Text → YaraCondition
unfolding group_of count_from bool_or_any
parse_condition_expr lines =
    let expr = trim_space (lower (join (codes " ") lines)) in
    if contains expr (codes "all of them")
    then of_mode mode_all
    else group_or (group_of expr) (
        if contains expr (codes "any of them") || text_eq expr (codes "any of")
        then of_mode mode_any
        else count_or (count_of (fields expr)) (bool_or_any expr))
