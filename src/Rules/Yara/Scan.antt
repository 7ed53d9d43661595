-- ===== src/Rules/Yara/Scan.antt =====
-- pkg/rules/yara.go: the scans of files and of memory. `Scanner` is what they take from elsewhere: the
-- entropy, a number in floating point, as the text that is printed of it where it is above the
-- threshold, and the hits of pkg/peparser.
use gasha_sandbox.Common.{
  ℕ, Bool, false, ◌&&◌, Option, none, some, List, [], ◌∷◌, ◌++◌, ltb, ◌==◌, if◌then◌else◌, length,
}
use gasha_sandbox.Common.Text.{Text, codes, contains, member, decimal, ext}
use gasha_sandbox.Rules.Hit.{RuleHit}
use gasha_sandbox.Rules.Yara.Types.{ExternalYaraRule, Regexps}
use gasha_sandbox.Rules.Yara.Match.{match_rules, match_memory}

pub record Scanner : Type 0 where
  pub packed_entropy : Text → Option Text
  pub dense_entropy : Text → Option Text
  pub pe_hits : Text → List RuleHit
  pub regexps : Regexps
  pub external_rules : Option (List ExternalYaraRule)

unfoldable pub yara_scan_hit : Text → Text → Text → Text → Text → Text → RuleHit
yara_scan_hit rule description severity ttp matched evidence = record {
  rule_name = rule;
  engine = codes "yara";
  description = description;
  severity = severity;
  mitre_ttp = ttp;
  matched_on = matched;
  evidence = evidence;
}

-- A header "MZ" with something behind it.
unfoldable pub is_pe : Text → Bool
is_pe (a ∷ b ∷ c ∷ s) = a == b'M' && b == b'Z'
is_pe _ = false

unfoldable pub scan_if : Bool → RuleHit → List RuleHit
scan_if b r = if b then r ∷ [] else []

unfoldable pub packed_hits : Text → Option Text → List RuleHit
unfolding yara_scan_hit
packed_hits path none = []
packed_hits path (some entropy) =
    yara_scan_hit (codes "HighEntropyPackedPE")
      (codes "The PE executable has extremely high entropy, indicating packing or encryption.")
      (codes "medium") (codes "T1027") path (codes "Shannon Entropy: " ++ entropy)
    ∷ []

unfoldable pub signature_hit : Text → Text → Text → Text → Text → Text → Text → List RuleHit
unfolding yara_scan_hit scan_if
signature_hit path buf rule pattern description severity ttp =
    scan_if (contains buf pattern)
      (yara_scan_hit rule description severity ttp path (codes "Found byte sequence: " ++ pattern))

unfoldable pub signature_hits : Text → Text → List RuleHit
unfolding signature_hit
signature_hits path buf =
    signature_hit path buf (codes "AntiDebugIsDebuggerPresent") (codes "IsDebuggerPresent")
      (codes "Contains debugger detection API string") (codes "low") (codes "T1497.001")
    ++ signature_hit path buf (codes "MaliciousMutexName") (codes "Global\\SandboxTestMutex")
        (codes "Contains typical testing sandbox mutex reference") (codes "medium") (codes "T1547")
    ++ signature_hit path buf (codes "Base64PowershellExec")
        (codes "powershell.exe -nop -w hidden -encodedcommand")
        (codes "Contains command line pattern for hidden base64 PowerShell execution")
        (codes "high") (codes "T1059.001")

unfoldable pub script_hits : Text → List RuleHit
unfolding yara_scan_hit scan_if ext
script_hits path = scan_if (member (ext path) (codes ".vbs" ∷ codes ".ps1" ∷ codes ".bat" ∷ [])) (
    yara_scan_hit (codes "ScriptExecutableDrop") (codes "Script file dropped in workspace.")
      (codes "low") (codes "T1059") path (codes "Extension: " ++ ext path))

abbrev pub external_file_hits :
    Scanner → Text → Text → Option (List ExternalYaraRule) → List RuleHit
external_file_hits y path buf none = []
external_file_hits y path buf (some rules) = match_rules y.regexps rules buf path

-- `ScanFile`; `none` is a file that is not read.
unfoldable pub scan_file : Scanner → Text → Option Text → List RuleHit
unfolding is_pe packed_hits signature_hits script_hits
scan_file y path none = []
scan_file y path (some buf) =
    (if is_pe buf then packed_hits path (y.packed_entropy buf) ++ y.pe_hits path else [])
    ++ signature_hits path buf
    ++ script_hits path
    ++ external_file_hits y path buf y.external_rules

unfoldable pub place_of : ℕ → Text → Text
place_of pid address = codes "PID " ++ decimal pid ++ codes " Address " ++ address

unfoldable pub dense_hits : ℕ → Text → Bool → Option Text → List RuleHit
unfolding yara_scan_hit scan_if place_of
dense_hits pid address large none = []
dense_hits pid address large (some entropy) = scan_if large (
    yara_scan_hit (codes "HighEntropyMemoryRegion")
      (codes "Memory region exhibits high entropy, suggesting shellcode or encrypted payload.")
      (codes "high") (codes "T1620") (place_of pid address) (codes "Entropy: " ++ entropy))

abbrev pub external_memory_hits :
    Scanner → ℕ → Text → Text → Option (List ExternalYaraRule) → List RuleHit
external_memory_hits y pid address buf none = []
external_memory_hits y pid address buf (some rules) = match_memory y.regexps rules pid address buf

-- `ScanMemory`
unfoldable pub scan_memory : Scanner → ℕ → Text → Text → List RuleHit
unfolding is_pe dense_hits
scan_memory y pid address buf =
    scan_if (is_pe buf) (
      yara_scan_hit (codes "UnbackedPEHeaderInMemory")
        (codes "PE header (MZ) discovered in an unbacked/anonymous memory region.")
        (codes "critical") (codes "T1055.002") (place_of pid address)
        (codes "MZ magic bytes found at start of heap allocation"))
    ++ dense_hits pid address (ltb 4096 (length buf)) (y.dense_entropy buf)
    ++ scan_if (contains buf (codes "mimikatz")) (
        yara_scan_hit (codes "MimikatzFoundInMemory")
          (codes "Mimikatz credential dumper string signature identified in memory.")
          (codes "critical") (codes "T1003.001") (place_of pid address)
          (codes "Matched string: mimikatz"))
    ++ external_memory_hits y pid address buf y.external_rules
