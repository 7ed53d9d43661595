-- ===== src/Rules/Yara/Match/Hex.antt =====
-- The search for a hex pattern with wildcards.
use gasha_sandbox.Common.{
  ℕ, zero, suc, ◌≤◌, ◌≡◌, ◌⊎◌, ◌↔◌, inl, inr, refl, ap, ◌∙◌, true, some, List, [], ◌∷◌, arith, ◌==◌,
  ==_iff, length, drop, get_elem?, Bool-cases, some_cancel,
}
use gasha_sandbox.Common.Text.{Text}
use gasha_sandbox.Rules.Yara.Match.{agrees, match_hex_with_mask}

-- Each byte of the pattern is masked or stands at its place in the data.
abbrev pub Places : Text → Text → List ℕ → Type 0
Places buf pattern mask =
    (j c : ℕ)
    → get_elem? pattern j ≡ some c
    → (get_elem? mask j ≡ some 0) ⊎ (get_elem? buf j ≡ some c)

abbrev pub Fits : Text → Text → List ℕ → Type 0
Fits buf pattern mask = (length pattern ≤ length buf) × Places buf pattern mask

cons-Places :
    (d p : ℕ) (ds ps : Text) (mask rest : List ℕ)
    → ((j : ℕ) → get_elem? mask (suc j) ≡ get_elem? rest j)
    → (get_elem? mask 0 ≡ some 0) ⊎ (d ≡ p)
    → Places ds ps rest
    → Places (d ∷ ds) (p ∷ ps) mask
cons-Places d p ds ps mask rest shift first places zero c e = elim first [
  | inl x ↦ inl x
  | inr x ↦ inr (ap some x ∙ e)
]
cons-Places d p ds ps mask rest shift first places (suc j) c e = elim (places j c e) [
  | inl x ↦ inl (shift j ∙ x)
  | inr x ↦ inr x
]

agrees-Fits :
    (buf pattern : Text) (mask : List ℕ) → agrees buf pattern mask ≡ true → Fits buf pattern mask
unfolding agrees
agrees-Fits buf [] mask h = (omega arith, λ j c e. cc)
agrees-Fits [] (p ∷ ps) mask h = cc
agrees-Fits (d ∷ ds) (p ∷ ps) [] h =
    let rest = agrees-Fits ds ps [] (ground (arith, h)) in
    (
      omega (arith, rest.0),
      cons-Places d p ds ps [] [] (λ j. refl) (inr (ground (arith, h))) rest.1,
    )
agrees-Fits (d ∷ ds) (p ∷ ps) (m ∷ mask) h =
    let rest = agrees-Fits ds ps mask (ground (arith, h)) in
    (omega (arith, rest.0), cons-Places d p ds ps (m ∷ mask) mask (λ j. refl) first rest.1)
  where
    first : (some m ≡ some 0) ⊎ (d ≡ p)
    first = elim (Bool-cases (m == 0)) [
      | inl e ↦ inl (ap some ((==_iff m 0).0 e))
      | inr e ↦ inr (ground (arith, h, e))
    ]

Fits-agrees :
    (buf pattern : Text) (mask : List ℕ) → Fits buf pattern mask → agrees buf pattern mask ≡ true
unfolding agrees
Fits-agrees buf [] mask h = refl
Fits-agrees [] (p ∷ ps) mask h = absurd (omega (arith, h.0))
Fits-agrees (d ∷ ds) (p ∷ ps) [] h =
    let rest = Fits-agrees ds ps [] (omega (arith, h.0), λ j c e. h.1 (suc j) c e) in
    elim (h.1 0 p refl) [
      | inl x ↦ cc
      | inr x ↦ let same : d ≡ p = some_cancel x in ground (arith, rest)
    ]
Fits-agrees (d ∷ ds) (p ∷ ps) (m ∷ mask) h =
    let rest = Fits-agrees ds ps mask (omega (arith, h.0), λ j c e. h.1 (suc j) c e) in
    elim (h.1 0 p refl) [
      | inl x ↦ let masked : m ≡ 0 = some_cancel x in ground (arith, rest)
      | inr x ↦ let same : d ≡ p = some_cancel x in ground (arith, rest)
    ]

match-to_offset :
    (buf pattern : Text) (mask : List ℕ)
    → match_hex_with_mask buf pattern mask ≡ true
    → (i : ℕ) × Fits (drop i buf) pattern mask
unfolding match_hex_with_mask
match-to_offset [] pattern mask h = (0, agrees-Fits [] pattern mask h)
match-to_offset (d ∷ ds) pattern mask h = elim (Bool-cases (agrees (d ∷ ds) pattern mask)) [
  | inl e ↦ (0, agrees-Fits (d ∷ ds) pattern mask e)
  | inr e ↦ let rest = match-to_offset ds pattern mask (rw e at h) in (suc rest.0, rest.1)
]

offset-to_match :
    (buf pattern : Text) (mask : List ℕ) (i : ℕ)
    → Fits (drop i buf) pattern mask
    → match_hex_with_mask buf pattern mask ≡ true
unfolding match_hex_with_mask
offset-to_match [] pattern mask zero h = Fits-agrees [] pattern mask h
offset-to_match [] pattern mask (suc i) h = Fits-agrees [] pattern mask h
offset-to_match (d ∷ ds) pattern mask zero h =
    let here = Fits-agrees (d ∷ ds) pattern mask h in rw here refl
offset-to_match (d ∷ ds) pattern mask (suc i) h =
    let later = offset-to_match ds pattern mask i h in ground (arith, later)

-- A hex pattern is found exactly when the data have an offset from which there are as many bytes as
-- in the pattern, and each byte of the pattern is masked or stands at its place.
pub match_hex_with_mask_iff :
    (buf pattern : Text) (mask : List ℕ)
    → (match_hex_with_mask buf pattern mask ≡ true) ↔ ((i : ℕ) × Fits (drop i buf) pattern mask)
match_hex_with_mask_iff buf pattern mask =
    (match-to_offset buf pattern mask, λ (i, h). offset-to_match buf pattern mask i h)
