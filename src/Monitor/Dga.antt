-- ===== src/Monitor/Dga.antt =====
-- pkg/monitor/dga_detector.go: the run of consonants and the counters of failed look-ups. The
-- composite score is floating point and left out.
use Prim.Native.Nat.{max}
use gasha_sandbox.Common.{
  ℕ, ◌+◌, ◌≤◌, ◌≡◌, refl, ◌∙◌, Bool, ◌&&◌, ◌||◌, not, [], ◌∷◌, arith, ltb, ◌==◌, if◌then◌else◌,
  Bool-cases, inl, inr,
}
use gasha_sandbox.Common.Text.{Text, codes, text_eq}

abbrev is_vowel : ℕ → Bool
is_vowel c = c == b'a' || c == b'e' || c == b'i' || c == b'o' || c == b'u'

abbrev is_consonant : ℕ → Bool
is_consonant c = not (ltb c b'a' || ltb b'z' c) && not (is_vowel c)

-- The loop, with `maxRun` and `cur`.
unfoldable pub run_from : ℕ → ℕ → Text → ℕ
run_from max_run cur [] = max_run
run_from max_run cur (c ∷ s) =
    let grown = run_from (if ltb max_run (cur + 1) then cur + 1 else max_run) (cur + 1) s in
    let reset = run_from max_run 0 s in if is_consonant c then grown else reset

unfoldable pub max_consonant_run : Text → ℕ
unfolding run_from
max_consonant_run label = run_from 0 0 label

-- As a specification: the greatest length of the runs between other bytes, `cur` being that of the
-- open one.
unfoldable pub longest : ℕ → Text → ℕ
longest cur [] = cur
longest cur (c ∷ s) =
    let more = longest (cur + 1) s in
    let next = max cur (longest 0 s) in if is_consonant c then more else next

longest_ge : (cur : ℕ) (s : Text) → cur ≤ longest cur s
unfolding longest
longest_ge cur [] = omega arith
longest_ge cur (c ∷ s) = elim (Bool-cases (is_consonant c)) [
  | inl e ↦ rw e (omega (arith, longest_ge (cur + 1) s))
  | inr e ↦ rw e (omega arith)
]

run_from-longest :
    (max_run cur : ℕ) (s : Text)
    → cur ≤ max_run
    → run_from max_run cur s ≡ max max_run (longest cur s)
unfolding run_from longest
run_from-longest m cur [] h = omega arith
run_from-longest m cur (c ∷ s) h = elim (Bool-cases (is_consonant c)) [
  | inl e ↦ elim (Bool-cases (ltb m (cur + 1))) [
    | inl l ↦
        let top : max (cur + 1) (longest (cur + 1) s) ≡ max m (longest (cur + 1) s) =
          ground (arith, longest_ge (cur + 1) s) in
        rw (e, l) (run_from-longest (cur + 1) (cur + 1) s (omega arith) ∙ top)
    | inr l ↦ rw (e, l) (run_from-longest m (cur + 1) s (ground arith))
  ]
  | inr e ↦ rw e (run_from-longest m 0 s (omega arith) ∙ (omega arith))
]

-- The run of consonants that is reported is the longest of the label: none is longer, and it is one of them.
pub max_consonant_run-longest : (label : Text) → max_consonant_run label ≡ longest 0 label
unfolding max_consonant_run
max_consonant_run-longest label = run_from-longest 0 0 label (omega arith) ∙ (omega arith)

run_test : max_consonant_run (codes "abcdfghe-xyz") ≡ 6
unfolding max_consonant_run codes
run_test = refl

-- The counter of each job, 0 where the map has no entry.
pub record DgaDetector : Type 0 where
  pub nxdomains : Text → ℕ
  pub nx_threshold : ℕ

unfoldable pub new_dga_detector : DgaDetector
new_dga_detector = record { nxdomains = λ job. 0; nx_threshold = 15 }

abbrev set_count : (Text → ℕ) → Text → ℕ → Text → ℕ
set_count m job n other = if text_eq job other then n else m other

unfoldable pub record_nx_domain : DgaDetector → Text → DgaDetector × Bool
record_nx_domain d job =
    let n = d.nxdomains job + 1 in
    (record d { nxdomains = set_count d.nxdomains job n }, ltb d.nx_threshold n)

unfoldable pub nx_domain_count : DgaDetector → Text → ℕ
nx_domain_count d job = d.nxdomains job

unfoldable pub reset_session : DgaDetector → Text → DgaDetector
reset_session d job = record d { nxdomains = set_count d.nxdomains job 0 }
