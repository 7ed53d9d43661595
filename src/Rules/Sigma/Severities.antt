-- ===== src/Rules/Sigma/Severities.antt =====
-- The severities of what the correlator reports, over the built-in rules, the loader and the index.
pub mod Rated
use gasha_sandbox.Common.{
  get_elem?, ℕ, zero, suc, ℕ, ◌≡◌, refl, sym, ap, subst, ◌∙◌, inl, inr, Bool, true, false, ◌&&◌,
  ◌||◌, not, Option, none, some, List, [], ◌∷◌, ◌++◌, arith, if◌then◌else◌, is_nil, All, All-append,
  Bool-cases, some_cancel,
}
use gasha_sandbox.Common.Text.{Text, codes, text_eq, lower, member, contains}
use gasha_sandbox.Monitor.Events.{
  Event, EventType, string_of, process_create, registry_set, file_write, network_connect,
  network_dns, handle_create, handle_duplicate, powershell_exec, amsi_scan, evasion_attempt,
  wmi_activity, scheduled_task, service_install,
}
use gasha_sandbox.Rules.Hit.{RuleHit}
use gasha_sandbox.Rules.Severity.{normalise_severity}
use gasha_sandbox.Rules.Sigma.Types.{CompiledSigmaRule, SelectorMap, SigmaRuleFile, RawBlock, Host}
use gasha_sandbox.Rules.Sigma.Eval.{matches}
use gasha_sandbox.Rules.Sigma.Scope.{
  external_hit, visit, collect_hits, build_index, evaluate_external,
}
use gasha_sandbox.Rules.Sigma.Scope.Indexed.{build_index-rules}
use gasha_sandbox.Rules.Sigma.Condition.{Parsed}
use gasha_sandbox.Rules.Sigma.Load.{
  with_condition, compile_detection, compile_rule, parse_sigma_rule, add_loaded, loaded_rules,
  load_sigma_rules,
}
use gasha_sandbox.Rules.Sigma.Builtin.Base.{Known, hit_if, hit_for, thread_hit, first_with}
use gasha_sandbox.Rules.Sigma.Builtin.System.{
  process_create_hits, registry_set_hits, file_write_hits, network_connect_hits, network_dns_hits,
  handle_create_hits, handle_duplicate_hits,
}
use gasha_sandbox.Rules.Sigma.Builtin.Scripts.{
  powershell_hits, amsi_scan_hits, evasion_hits, wmi_hits, scheduled_task_hits,
  service_install_hits,
}
use gasha_sandbox.Rules.Sigma.Builtin.{builtin_for, external_hits, evaluate_sigma}
use gasha_sandbox.Rules.Sigma.Severities.Rated.{
  is_severity, IsRated, AllRated, low_lem, medium_lem, high_lem, critical_lem, informational_lem,
  append-AllRated, cons-AllRated, nil_rated, builtin_for-AllRated,
}

-- The loader gives every rule one of the severities.
pub normalise_severity-is_severity : (t : Text) → is_severity (normalise_severity t) ≡ true
unfolding normalise_severity
normalise_severity-is_severity t =
    elim (Bool-cases (member (lower t) (codes "crit" ∷ codes "critical" ∷ []))) [
      | inl a ↦ rw a critical_lem
      | inr a ↦ elim (Bool-cases (text_eq (lower t) (codes "high"))) [
        | inl b ↦ rw (a, b) high_lem
        | inr b ↦ elim (Bool-cases (member (lower t) (codes "med" ∷ codes "medium" ∷ []))) [
          | inl c ↦ rw (a, b, c) medium_lem
          | inr c ↦ elim (Bool-cases (text_eq (lower t) (codes "low"))) [
            | inl d ↦ rw (a, b, c, d) low_lem
            | inr d ↦ rw (a, b, c, d) informational_lem
          ]
        ]
      ]
    ]

abbrev RuleRated : CompiledSigmaRule → Type 0
RuleRated r = is_severity r.severity ≡ true

with_condition-RuleRated :
    (raw : SigmaRuleFile) (kws : List Text) (m : SelectorMap) (p : Option Parsed)
    (rule : CompiledSigmaRule)
    → with_condition raw kws m p ≡ some rule
    → RuleRated rule
with_condition-RuleRated raw kws m none rule e = cc
with_condition-RuleRated raw kws m (some (expr, rest, all)) rule e =
    subst RuleRated (some_cancel e) (normalise_severity-is_severity raw.level)

parse_sigma_rule-RuleRated :
    (h : Host) (raw : SigmaRuleFile) (rule : CompiledSigmaRule)
    → parse_sigma_rule h raw ≡ some rule
    → RuleRated rule
unfolding parse_sigma_rule compile_rule
parse_sigma_rule-RuleRated h raw rule loaded = compile raw.detection loaded
  where
    compile :
        (d : Option (List (Text × RawBlock)))
        → compile_detection h raw d ≡ some rule
        → RuleRated rule
    compile none e = cc
    compile (some d) e = elim (Bool-cases (is_nil raw.title)) [
      | inl t ↦ cc (rw t at e)
      | inr t ↦ with_condition-RuleRated raw _ _ _ rule (rw t at e)
    ]

add_loaded-RuleRated :
    (p : Option CompiledSigmaRule) (rs : List CompiledSigmaRule)
    → ((rule : CompiledSigmaRule) → p ≡ some rule → RuleRated rule)
    → All RuleRated rs
    → All RuleRated (add_loaded p rs)
add_loaded-RuleRated none rs h hs = hs
add_loaded-RuleRated (some r) rs h hs = (h r refl, hs)

loaded_rules-RuleRated :
    (h : Host) (raws : List SigmaRuleFile) → All RuleRated (loaded_rules h raws)
unfolding loaded_rules
loaded_rules-RuleRated h [] = tt
loaded_rules-RuleRated h (raw ∷ raws) =
    add_loaded-RuleRated (parse_sigma_rule h raw) _ (parse_sigma_rule-RuleRated h raw)
      (loaded_rules-RuleRated h raws)

visit-AllRated :
    (h : Host) (ev : Event) (rs : List CompiledSigmaRule) (idx : ℕ)
    → All RuleRated rs
    → AllRated (visit h ev (get_elem? rs idx))
unfolding visit external_hit
visit-AllRated h ev [] idx hs = nil_rated
visit-AllRated h ev (r ∷ rs) zero hs = elim (Bool-cases (matches h r ev)) [
  | inl e ↦ rw e (cons-AllRated _ _ hs.0 nil_rated)
  | inr e ↦ rw e nil_rated
]
visit-AllRated h ev (r ∷ rs) (suc idx) hs = visit-AllRated h ev rs idx hs.1

-- The keys may come in any order, and be any.
collect_hits-AllRated :
    (h : Host) (ev : Event) (rs : List CompiledSigmaRule) (keys : List ℕ)
    → All RuleRated rs
    → AllRated (collect_hits h ev rs keys)
unfolding collect_hits
collect_hits-AllRated h ev rs [] hs = nil_rated
collect_hits-AllRated h ev rs (idx ∷ keys) hs =
    append-AllRated _ _ (visit-AllRated h ev rs idx hs) (collect_hits-AllRated h ev rs keys hs)

-- Every hit that the correlator reports of an event, by a built-in rule or by an external rule that
-- the loader made of any files, has one of the five severities that the comment on `RuleHit`
-- lists.
pub evaluate_sigma-IsRated :
    (k : Known) (h : Host) (raws : List SigmaRuleFile) (ev : Event)
    → All IsRated (evaluate_sigma k h (some (load_sigma_rules h raws)) ev)
unfolding evaluate_sigma load_sigma_rules evaluate_external AllRated
evaluate_sigma-IsRated k h raws ev = append-AllRated _ _ (builtin_for-AllRated k ev.event_type ev) (
    collect_hits-AllRated h ev (build_index (loaded_rules h raws)).rules _ (
      subst (All RuleRated) (sym (build_index-rules (loaded_rules h raws)))
        (loaded_rules-RuleRated h raws)))
