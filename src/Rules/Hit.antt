-- ===== src/Rules/Hit.antt =====
-- pkg/rules/engine.go: what every rule engine reports.
use gasha_sandbox.Common.Text.{Text}

-- `RuleHit`, less its free `Meta`.
pub record RuleHit : Type 0 where
  pub rule_name : Text
  pub engine : Text
  pub description : Text
  pub severity : Text
  pub mitre_ttp : Text
  pub matched_on : Text
  pub evidence : Text
