-- ===== src/Rules/Yara/Types.antt =====
-- pkg/rules/yara_loader.go: the compiled rules. A text is ASCII here too.
use gasha_sandbox.Common.{ℕ, Bool, List}
use gasha_sandbox.Common.Text.{Text}
use gasha_sandbox.Common.Ints.{ℤ}

pub data PatternKind : Type 0 where
  kind_literal kind_hex kind_regex : PatternKind

-- `re` is the source of the compiled expression; a mask that is nil is empty.
pub record YaraPattern : Type 0 where
  pub id : Text
  pub kind : PatternKind
  pub literal : Text
  pub re : Text
  pub nocase : Bool
  pub wide : Bool
  pub hex_mask : List ℕ

pub data CondMode : Type 0 where
  mode_any mode_all mode_count mode_bool_expr : CondMode

pub record YaraCondition : Type 0 where
  pub mode : CondMode
  pub min_count : ℤ
  pub group_prefix : Text
  pub bool_tokens : List Text

pub record ExternalYaraRule : Type 0 where
  pub name : Text
  pub description : Text
  pub severity : Text
  pub mitre_ttp : Text
  pub lemas_family : Text
  pub tags : List Text
  pub patterns : List YaraPattern
  pub condition : YaraCondition

-- What the loader takes from `regexp`.
pub record Regexps : Type 0 where
  pub compiles : Text → Bool
  pub is_match : Text → Text → Bool
