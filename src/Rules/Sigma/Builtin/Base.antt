-- ===== src/Rules/Sigma/Builtin/Base.antt =====
-- pkg/rules/sigma.go: what the built-in rules share. `Known` is what they take from elsewhere: the DGA
-- test of pkg/monitor, the number in the nested arguments of an API call, and `%.0f`.
use gasha_sandbox.Common.{
  ℕ, Bool, ◌||◌, Option, none, some, List, [], ◌∷◌, ◌++◌, ◌==◌, if◌then◌else◌,
}
use gasha_sandbox.Common.Text.{Text, codes, utf8, decimal}
use gasha_sandbox.Monitor.Events.{Event, Value, int, float}
use gasha_sandbox.Rules.Hit.{RuleHit}

-- `args_target` is the `%.0f` of the target in arguments that are a map, and `none` for others.
pub record Known : Type 0 where
  pub is_dga_domain : Text → Bool
  pub args_target : Option Value → Option Text
  pub print_rounded : Option Value → Text

abbrev pub builtin_hit : Text → Text → Text → Text → Text → Text → RuleHit
builtin_hit rule description severity ttp matched evidence = record {
  rule_name = rule;
  engine = codes "sigma";
  description = description;
  severity = severity;
  mitre_ttp = ttp;
  matched_on = matched;
  evidence = evidence;
}

unfoldable pub hit_if : Bool → RuleHit → List RuleHit
hit_if b r = if b then r ∷ [] else []

-- `fmt.Sprintf("PID %d", ev.PID)`
unfoldable pub in_process : Event → Text
in_process ev = codes "PID " ++ decimal ev.pid

-- The first of the texts that the test accepts, where the code stops at it.
unfoldable pub first_with : (Text → Bool) → List Text → Option Text
first_with p [] = none
first_with p (t ∷ ts) = let rest = first_with p ts in if p t then some t else rest

unfoldable pub hit_for : Option Text → (Text → RuleHit) → List RuleHit
hit_for none f = []
hit_for (some t) f = f t ∷ []

-- What stands behind the last slash or backslash.
unfoldable pub base_from : Text → Text → Text
base_from cur [] = cur
base_from cur (c ∷ s) =
    let next = base_from [] s in
    let more = base_from (cur ++ c ∷ []) s in if c == b'/' || c == 92 then next else more

abbrev pub int_at : Option Value → ℕ
int_at (some (int n)) = n
int_at _ = 0

abbrev pub port_at : Option Value → ℕ
port_at (some (float n)) = n
port_at _ = 0

unfoldable pub suspicious_parents : List Text
suspicious_parents =
    codes "winword.exe"
    ∷ codes "excel.exe"
    ∷ codes "outlook.exe"
    ∷ codes "mshta.exe"
    ∷ codes "wscript.exe"
    ∷ codes "cscript.exe"
    ∷ codes "regsvr32.exe"
    ∷ codes "rundll32.exe"
    ∷ []

unfoldable pub suspicious_tlds : List Text
suspicious_tlds =
    codes ".tk"
    ∷ codes ".ml"
    ∷ codes ".ga"
    ∷ codes ".cf"
    ∷ codes ".gq"
    ∷ codes ".xyz"
    ∷ codes ".top"
    ∷ codes ".pw"
    ∷ codes ".cc"
    ∷ []

unfoldable pub suspicious_service_paths : List Text
suspicious_service_paths =
    codes "\\temp\\"
    ∷ codes "\\tmp\\"
    ∷ codes "\\appdata\\"
    ∷ codes "\\users\\public\\"
    ∷ codes "\\programdata\\"
    ∷ []

unfoldable pub thread_hit : Event → Option Text → List RuleHit
thread_hit ev none = []
thread_hit ev (some target) =
    (builtin_hit (codes "SuspiciousCreateRemoteThread")
      (utf8 (
        codes
          "Process attempted execution control hijack by spawning thread in remote address space."))
      (codes "high") (codes "T1055.001") (in_process ev)
      (codes "Target PID: " ++ target ++ codes ", API: CreateRemoteThread"))
    ∷ []
