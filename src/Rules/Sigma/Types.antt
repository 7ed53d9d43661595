-- ===== src/Rules/Sigma/Types.antt =====
-- pkg/rules/sigma_loader.go: the compiled rules. A map is the list of its entries.
use gasha_sandbox.Common.{ℕ, Bool, true, false, Option, List}
use gasha_sandbox.Common.Text.{Text, codes, decimal}
use gasha_sandbox.Common.Ints.{ℤ}
use gasha_sandbox.Monitor.Events.{Value, str, int, float, boolean, opaque_value}

-- `regexes` holds the patterns of those that compiled.
pub record SigmaFieldMatcher : Type 0 where
  pub field_name : Text
  pub values : List Text
  pub regexes : List Text
  pub match_all : Bool

pub record SigmaSelector : Type 0 where
  pub name : Text
  pub fields : List SigmaFieldMatcher

-- `wildcard` has the prefix and the least count of selectors.
pub data SigmaCondExpr : Type 0 where
  name : Text → SigmaCondExpr
  wildcard : Text → ℤ → SigmaCondExpr
  both : SigmaCondExpr → SigmaCondExpr → SigmaCondExpr
  either : SigmaCondExpr → SigmaCondExpr → SigmaCondExpr
  negation : SigmaCondExpr → SigmaCondExpr
  keywords : SigmaCondExpr

abbrev pub SelectorMap : Type 0
SelectorMap = List (Text × SigmaSelector)

pub record CompiledSigmaRule : Type 0 where
  pub name : Text
  pub description : Text
  pub severity : Text
  pub mitre_ttp : Text
  pub target_categories : List Text
  pub target_event_types : List Text
  pub target_event_ids : List ℕ
  pub selector_map : SelectorMap
  pub keyword_list : List Text
  pub keywords_all : Bool
  pub cond_expr : SigmaCondExpr

-- What `yaml` gives for a value that has no parts: null, a text, or the text that `%v` prints of it.
pub data Scalar : Type 0 where
  nothing : Scalar
  text : Text → Scalar
  printed : Text → Scalar

-- The value of a field: what has parts and is no list is `one (printed …)` too.
pub data RawValue : Type 0 where
  items : List Scalar → RawValue
  one : Scalar → RawValue

pub data RawBlock : Type 0 where
  mapping : List (Text × RawValue) → RawBlock
  sequence : List Scalar → RawBlock
  single : Scalar → RawBlock

pub record SigmaLogsource : Type 0 where
  pub category : Text
  pub product : Text

-- `detection` is `none` where the file has none.
pub record SigmaRuleFile : Type 0 where
  pub title : Text
  pub description : Text
  pub level : Text
  pub tags : List Text
  pub logsource : SigmaLogsource
  pub detection : Option (List (Text × RawBlock))

-- What the loader takes from `fmt` and `regexp`: `%v` of a value that is no text, whole number or
-- truth value, of a map or a list, and the regular expressions; and the order in which `range` visits
-- the keys of a map, which Go does not fix.
pub record Host : Type 0 where
  pub print_value : Value → Text
  pub print_block : RawBlock → Text
  pub regexp_compiles : Text → Bool
  pub regexp_matches : Text → Text → Bool
  pub range_order : List ℕ → List ℕ

-- `fmt.Sprintf("%v", v)`
unfoldable pub sprint : Host → Value → Text
sprint h (str s) = s
sprint h (int n) = decimal n
sprint h (boolean true) = codes "true"
sprint h (boolean false) = codes "false"
sprint h (float n) = h.print_value (float n)
sprint h opaque_value = h.print_value opaque_value

unfoldable pub print_scalar : Scalar → Text
print_scalar nothing = codes "<nil>"
print_scalar (text s) = s
print_scalar (printed s) = s
