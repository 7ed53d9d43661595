-- ===== src/Extractor/Utils/Sections.antt =====
-- `MDToken`, `CalcSectionAlignment`, `DataOffset` and `sectionContaining`. All numbers are uint32.
use gasha_sandbox.Common.{
  ℕ, ◌+◌, ◌-◌, ◌*◌, ◌%◌, ◌^◌, ◌≤◌, ◌<◌, ◌≡◌, subst, Bool, true, false, ◌&&◌, Option, none, some,
  List, [], ◌∷◌, arith, ltb, leb, ◌==◌, if◌then◌else◌, Bool-cases, inl, inr, All, some_cancel,
}
use gasha_sandbox.Common.Text.{Text}

abbrev pub u32 : ℕ → ℕ
u32 n = n % 2 ^ 32

-- Four bytes, the lowest first, of which three count.
unfoldable pub md_token : List ℕ → ℕ
md_token (a ∷ b ∷ c ∷ d ∷ _) = (a + 256 * b + 65536 * c + 16777216 * d) % 16777216
md_token _ = 0

pub record Section : Type 0 where
  pub name : Text
  pub virtual_address : ℕ
  pub pointer_to_raw_data : ℕ
  pub virtual_size : ℕ
  pub raw_size : ℕ

-- The end of a section wraps; where it is 0, the raw size serves.
unfoldable pub section_end : Section → ℕ
section_end s =
    let end = u32 (s.virtual_address + s.virtual_size) in
    if end == 0 then u32 (s.virtual_address + s.raw_size) else end

unfoldable pub covers : Section → ℕ → Bool
unfolding section_end
covers s rva = leb s.virtual_address rva && ltb rva (section_end s)

unfoldable pub section_containing : List Section → ℕ → Option Section
unfolding covers
section_containing [] rva = none
section_containing (s ∷ ss) rva =
    let rest = section_containing ss rva in if covers s rva then some s else rest

-- `va - raw`, as the signed code computes it: 0 where it is negative, else cut to 32 bits.
unfoldable pub alignment : Section → Section → ℕ
alignment text rdata =
    let plus = rdata.virtual_address + text.pointer_to_raw_data in
    let minus = text.virtual_address + rdata.pointer_to_raw_data in
    if ltb plus minus then 0 else u32 (plus - minus)

abbrev alignment_of : Option Section → Option Section → ℕ
alignment_of (some text) (some rdata) = alignment text rdata
alignment_of _ _ = 0

unfoldable pub calc_section_alignment : List Section → ℕ → ℕ → ℕ
unfolding section_containing alignment
calc_section_alignment sections offset addr =
    alignment_of (section_containing sections offset)
      (section_containing sections (u32 (offset + addr)))

unfoldable pub data_offset : List Section → ℕ → ℕ → ℕ
unfolding calc_section_alignment
data_offset sections string_offset addr =
    u32 (string_offset + addr + 2 ^ 32 - calc_section_alignment sections string_offset addr)

-- A section that is found covers the address.
pub section_containing-covers :
    (ss : List Section) (rva : ℕ) (s : Section)
    → section_containing ss rva ≡ some s
    → covers s rva ≡ true
unfolding section_containing
section_containing-covers [] rva s h = cc
section_containing-covers (x ∷ ss) rva s h = elim (Bool-cases (covers x rva)) [
  | inl e ↦ subst (λ y. covers y rva ≡ true) (some_cancel (rw e at h)) e
  | inr e ↦ section_containing-covers ss rva s (rw e at h)
]

-- Where none is found, none covers it.
pub section_containing-none :
    (ss : List Section) (rva : ℕ)
    → section_containing ss rva ≡ none
    → All (λ s. covers s rva ≡ false) ss
unfolding section_containing
section_containing-none [] rva h = tt
section_containing-none (x ∷ ss) rva h = elim (Bool-cases (covers x rva)) [
  | inl e ↦ absurd (cc (rw e at h))
  | inr e ↦ (e, section_containing-none ss rva (rw e at h))
]

-- For a string and its data in two sections, and sums that stay within 32 bits, the data offset is
-- the sum, less the distance of the data's section from its raw data beyond that of the text's.
pub data_offset_lem :
    (sections : List Section) (text rdata : Section) (offset addr : ℕ)
    → section_containing sections offset ≡ some text
    → section_containing sections (offset + addr) ≡ some rdata
    → offset + addr < 2 ^ 32
    → text.virtual_address + rdata.pointer_to_raw_data
      ≤ rdata.virtual_address + text.pointer_to_raw_data
    → rdata.virtual_address + text.pointer_to_raw_data
      ≤ offset + addr + text.virtual_address + rdata.pointer_to_raw_data
    → data_offset sections offset addr + rdata.virtual_address + text.pointer_to_raw_data
      ≡ offset + addr + text.virtual_address + rdata.pointer_to_raw_data
unfolding data_offset
data_offset_lem sections text rdata offset addr ht hr fits up down =
    let e : u32 (offset + addr) ≡ offset + addr = omega arith in rw (e, ht, hr) (ground arith)
