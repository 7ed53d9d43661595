-- ===== src/Rules/Engine.antt =====
-- pkg/rules/engine.go: the engine over YARA and Sigma, less the scan of scripts.
use gasha_sandbox.Common.{ℕ, Option, List}
use gasha_sandbox.Common.Text.{Text}
use gasha_sandbox.Monitor.Events.{Event}
use gasha_sandbox.Rules.Hit.{RuleHit}
use gasha_sandbox.Rules.Sigma.Types.{Host}
use gasha_sandbox.Rules.Sigma.Scope.{ExternalSigmaRules}
use gasha_sandbox.Rules.Sigma.Builtin.Base.{Known}
use gasha_sandbox.Rules.Sigma.Builtin.{evaluate_sigma}
use gasha_sandbox.Rules.Yara.Scan.{Scanner, scan_file, scan_memory}

pub record RuleEngine : Type 0 where
  pub yara_engine : Scanner
  pub known : Known
  pub host : Host
  pub external : Option ExternalSigmaRules

unfoldable pub engine_scan_file : RuleEngine → Text → Option Text → List RuleHit
unfolding scan_file
engine_scan_file e path buf = scan_file e.yara_engine path buf

unfoldable pub engine_scan_memory : RuleEngine → ℕ → Text → Text → List RuleHit
unfolding scan_memory
engine_scan_memory e pid address buf = scan_memory e.yara_engine pid address buf

unfoldable pub engine_process_event : RuleEngine → Event → List RuleHit
unfolding evaluate_sigma
engine_process_event e ev = evaluate_sigma e.known e.host e.external ev
