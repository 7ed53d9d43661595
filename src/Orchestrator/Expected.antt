-- ===== src/Orchestrator/Expected.antt =====
-- The hits of a run, described apart from the code, and the findings that are sent.
use gasha_sandbox.Common.{
  not, zero, suc, true, false, ◌||◌, ◌&&◌, is_nil, any, All, arith, ℕ, ◌≡◌, refl, Bool, List, [],
  ◌∷◌, ◌++◌, if◌then◌else◌,
}
use gasha_sandbox.Common.Text.{Text, decimal, codes, text_eq, member}
use gasha_sandbox.Common.Ints.{ℤ, pos, negsuc}
use gasha_sandbox.Monitor.Events.{EventType, string_of, event_type_name}
use gasha_sandbox.Storage.Jobs.{Job}
use gasha_sandbox.Rules.Hit.{RuleHit}
use gasha_sandbox.Config.Types.{Config}
use gasha_sandbox.Orchestrator.Jobs.{
  Rules, MemoryFinding, finding_hits, fallback_hits, consumer_hits, Handled, correlated, scanned,
  handled_hits, is_script, script_source, is_emitted,
}

-- As a specification: the scan of a script, where the engine is enabled, the event is one of a script and
-- the script is not empty.
abbrev pub expected_scan : Rules → Bool → Bool → Text → Text → List RuleHit
expected_scan rules true true (c ∷ script) source = rules.scan_script (c ∷ script) source
expected_scan rules _ _ _ source = []

abbrev pub script_names : List Text
script_names = codes "powershell_exec" ∷ codes "amsi_scan" ∷ []

abbrev pub expected_correlation : Bool → List RuleHit → List RuleHit
expected_correlation true hits = hits
expected_correlation false hits = []

abbrev pub expected_hits : Rules → Config → List Handled → List RuleHit
expected_hits rules cfg [] = []
expected_hits rules cfg (correlated ev ∷ xs) =
    expected_correlation cfg.rules.sigma.enabled (rules.process_event ev)
    ++ expected_hits rules cfg xs
expected_hits rules cfg (scanned ev ∷ xs) =
    expected_scan rules cfg.rules.yara.enabled
      (any (text_eq (event_type_name ev.event_type)) script_names)
      (string_of "script_block" ev.fields)
      (event_type_name ev.event_type ++ codes ":PID-" ++ decimal ev.pid)
    ++ expected_hits rules cfg xs

is_script_lem : (t : EventType) → is_script t ≡ any (text_eq (event_type_name t)) script_names
unfolding is_script
is_script_lem t = ground arith

correlation_lem :
    (b : Bool) (hits : List RuleHit) → (if b then hits else []) ≡ expected_correlation b hits
correlation_lem true hits = refl
correlation_lem false hits = refl

scan_lem :
    (rules : Rules) (enabled is : Bool) (script source : Text)
    → (if enabled && (is && not (is_nil script)) then rules.scan_script script source else [])
      ≡ expected_scan rules enabled is script source
scan_lem rules true true [] source = refl
scan_lem rules true true (c ∷ script) source = refl
scan_lem rules true false script source = refl
scan_lem rules false is script source = refl

pub consumer_hits-expected :
    (rules : Rules) (cfg : Config) (xs : List Handled)
    → consumer_hits rules cfg xs ≡ expected_hits rules cfg xs
unfolding consumer_hits handled_hits script_source
consumer_hits-expected rules cfg [] = refl
consumer_hits-expected rules cfg (correlated ev ∷ xs) =
    rw
      (
        correlation_lem cfg.rules.sigma.enabled (rules.process_event ev),
        consumer_hits-expected rules cfg xs,
      )
      refl
consumer_hits-expected rules cfg (scanned ev ∷ xs) =
    rw
      (
        is_script_lem ev.event_type,
        scan_lem rules cfg.rules.yara.enabled _ (string_of "script_block" ev.fields) _,
        consumer_hits-expected rules cfg xs,
      )
      refl

abbrev pub ended_badly : ℤ → Bool
ended_badly (pos zero) = false
ended_badly (pos (suc n)) = true
ended_badly (negsuc n) = true

-- As a specification: the hits of the file, of what the consumer has handled, and, where the run ended
-- badly and its memory has no finding, of the stand-in for the memory.
abbrev pub run_hits :
    Rules → Config → Job → ℕ → Bool → ℤ → List Handled → List MemoryFinding → List RuleHit
run_hits rules cfg job pid timed_out exit_code handled fs =
    (rules.scan_file job.file_path ++ expected_hits rules cfg handled)
    ++ (if (timed_out || ended_badly exit_code) && is_nil fs
        then rules.scan_memory pid (codes "0x00400000")
            (codes "MZ header in unbacked memory... mimikatz")
        else [])

pub stand_in :
    (rules : Rules) (pid : ℕ) (timed_out : Bool) (exit_code : ℤ) (fs : List MemoryFinding)
    → fallback_hits rules pid
        (if timed_out then codes "timeout" else codes "completed")
        exit_code
        fs
      ≡ (if (timed_out || ended_badly exit_code) && is_nil fs
          then rules.scan_memory pid
              (codes "0x00400000")
              (codes "MZ header in unbacked memory... mimikatz")
          else [])
unfolding fallback_hits codes text_eq
stand_in rules pid true exit_code fs = refl
stand_in rules pid false (pos zero) fs = refl
stand_in rules pid false (pos (suc n)) fs = refl
stand_in rules pid false (negsuc n) fs = refl

abbrev pub IsSection : MemoryFinding → Type 0
IsSection f = f.finding_id ≡ codes "PESection"

pub section_hits :
    (rules : Rules) (pid : ℕ) (fs : List MemoryFinding)
    → All IsSection fs
    → finding_hits rules pid fs ≡ []
unfolding finding_hits codes text_eq member
section_hits rules pid [] h = refl
section_hits rules pid (f ∷ fs) h = rw (h.0, section_hits rules pid fs h.1) refl

pub section_silent : (fs : List MemoryFinding) → All IsSection fs → any is_emitted fs ≡ false
unfolding is_emitted codes text_eq
section_silent [] h = refl
section_silent (f ∷ fs) h = rw (h.0, section_silent fs h.1) refl

pub other_emitted :
    (before after : List MemoryFinding) (f : MemoryFinding)
    → text_eq f.finding_id (codes "PESection") ≡ false
    → any is_emitted (before ++ f ∷ after) ≡ true
unfolding is_emitted
other_emitted [] after f h = rw h refl
other_emitted (g ∷ before) after f h = ground (arith, other_emitted before after f h)
