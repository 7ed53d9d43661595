-- ===== src/Extractor/Utils/Dedup.antt =====
-- `Dedup`, `NullTerminated`, `PrintableASCII` and `FormatHex`.
use gasha_sandbox.Common.{
  ℕ, ◌+◌, ◌/◌, ◌%◌, ◌≡◌, refl, ap, Bool, true, false, ◌&&◌, not, List, [], ◌∷◌, ◌++◌, arith, ltb,
  leb, ◌==◌, if◌then◌else◌, All, Bool-cases, inl, inr, ◌∙◌,
}
use gasha_sandbox.Common.Text.{Text, text_eq_iff, text_eq_refl, member}

-- The loop: `seen` holds the texts met so far.
unfoldable pub dedup_from : List Text → List Text → List Text
unfolding member
dedup_from seen [] = []
dedup_from seen (s ∷ ss) =
    let skip = dedup_from seen ss in
    let take_it = s ∷ dedup_from (s ∷ seen) ss in if member s seen then skip else take_it

unfoldable pub dedup : List Text → List Text
unfolding dedup_from
dedup ss = dedup_from [] ss

-- No text stands twice.
abbrev pub IsDistinct : List Text → Type 0
IsDistinct [] = Unit
IsDistinct (s ∷ ss) = (member s ss ≡ false) × IsDistinct ss

unfoldable pub null_terminated : List ℕ → List ℕ
null_terminated [] = []
null_terminated (b ∷ bs) = let rest = b ∷ null_terminated bs in if b == 0 then [] else rest

abbrev pub is_printable : ℕ → Bool
is_printable c = leb 0x20 c && leb c 0x7E

unfoldable pub printable_ascii : Text → Bool
printable_ascii [] = true
printable_ascii (c ∷ s) = is_printable c && printable_ascii s

-- `%02X` of a byte.
unfoldable pub hex_digit : ℕ → ℕ
hex_digit d = if ltb d 10 then 48 + d else 55 + d

unfoldable pub hex_byte : ℕ → Text
unfolding hex_digit
hex_byte b = hex_digit (b / 16) ∷ hex_digit (b % 16) ∷ []

hex_rest : Text → List ℕ → Text
hex_rest sep [] = []
hex_rest sep (b ∷ bs) = sep ++ (hex_byte b ++ hex_rest sep bs)

unfoldable pub format_hex : List ℕ → Text → Text
unfolding hex_byte hex_rest
format_hex [] sep = []
format_hex (b ∷ bs) sep = hex_byte b ++ hex_rest sep bs

member-cons_self : (s : Text) (ss : List Text) → member s (s ∷ ss) ≡ true
unfolding member
member-cons_self s ss = rw (text_eq_refl s)

-- What is kept is what was not met before.
member-dedup_from :
    (seen ss : List Text) (t : Text)
    → member t (dedup_from seen ss) ≡ (member t ss && not (member t seen))
unfolding member dedup_from
member-dedup_from seen [] t = refl
member-dedup_from seen (s ∷ ss) t =
    ground (arith, text_eq_iff s t, member-dedup_from seen ss t, member-dedup_from (s ∷ seen) ss t)

IsDistinct-dedup_from : (seen ss : List Text) → IsDistinct (dedup_from seen ss)
unfolding dedup_from
IsDistinct-dedup_from seen [] = tt
IsDistinct-dedup_from seen (s ∷ ss) = elim (Bool-cases (member s seen)) [
  | inl e ↦ rw e (IsDistinct-dedup_from seen ss)
  | inr e ↦ rw e (
    member-dedup_from (s ∷ seen) ss s ∙ (rw (member-cons_self s seen) (ground arith)),
    IsDistinct-dedup_from (s ∷ seen) ss,
  )
]

-- `dedup` keeps exactly the texts of the list, each of them once.
pub dedup_lem :
    (ss : List Text) → IsDistinct (dedup ss) × ((t : Text) → member t (dedup ss) ≡ member t ss)
unfolding dedup
dedup_lem ss =
    (IsDistinct-dedup_from [] ss, λ t. member-dedup_from [] ss t ∙ (unfold member in ground arith))

dedup_from_distinct :
    (seen ss : List Text)
    → IsDistinct ss
    → All (λ s. member s seen ≡ false) ss
    → dedup_from seen ss ≡ ss
unfolding dedup_from
dedup_from_distinct seen [] d h = refl
dedup_from_distinct seen (s ∷ ss) d h =
    rw h.0 (ap (λ r. s ∷ r) (dedup_from_distinct (s ∷ seen) ss d.1 (unseen ss d.0 h.1)))
  where
    unseen :
        (l : List Text)
        → member s l ≡ false
        → All (λ t. member t seen ≡ false) l
        → All (λ t. member t (s ∷ seen) ≡ false) l
    unseen [] n k = tt
    unseen (t ∷ l) n k =
        (ground (arith, text_eq_iff s t, text_eq_iff t s), unseen l (ground arith) k.1)

-- A list without repetitions is left as it is, order included.
pub dedup_distinct : (ss : List Text) → IsDistinct ss → dedup ss ≡ ss
unfolding dedup
dedup_distinct ss d = dedup_from_distinct [] ss d (none_seen ss)
  where
    none_seen : (l : List Text) → All (λ s. member s [] ≡ false) l
    none_seen [] = tt
    none_seen (s ∷ l) = (refl, none_seen l)
