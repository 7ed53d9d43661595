-- ===== src/Extractor/Procdump/Reads.antt =====
-- What `GetData` gives for the addresses of a parsed dump.
use gasha_sandbox.Common.{
  ℕ, ◌+◌, ◌≤◌, ◌<◌, ◌≡◌, refl, sym, subst, ◌-◌, ◌%◌, ◌^◌, Bool, true, Option, some, List, [], ◌∷◌,
  arith, ltb, if◌then◌else◌, length, length-take, take, drop, All, any, Bool-cases, inl, inr,
}
use gasha_sandbox.Extractor.Procdump.{
  Chunk, Region, last_end, coalesce, parse, chunk_of, chunk_for, get_data, holds,
}
use gasha_sandbox.Extractor.Procdump.Regions.{AreAdjacent, IsRegion, parse-IsRegion}

-- A chunk that holds the address.
abbrev IsFound : ℕ → Option Chunk → Type 0
IsFound addr o = (c : Chunk) × (o ≡ some c) × (holds c.start c.end addr ≡ true)

chunk_of-IsFound :
    (addr : ℕ) (c : Chunk) (cs : List Chunk)
    → AreAdjacent c cs
    → c.start ≤ addr
    → addr < last_end c cs
    → IsFound addr (chunk_of addr (c ∷ cs))
unfolding chunk_of last_end
chunk_of-IsFound addr c [] a low high =
    let e : holds c.start c.end addr ≡ true = ground arith in (c, rw e refl, e)
chunk_of-IsFound addr c (d ∷ ds) a low high = elim (Bool-cases (holds c.start c.end addr)) [
  | inl e ↦ (c, rw e refl, e)
  | inr e ↦ rw e (chunk_of-IsFound addr d ds a.1 (ground (arith, a.0)) high)
]

region-IsFound :
    (addr : ℕ) (r : Region)
    → IsRegion r
    → holds r.start r.end addr ≡ true
    → IsFound addr (chunk_of addr r.chunks)
unfolding coalesce
region-IsFound addr r i h =
    subst (λ s. IsFound addr (chunk_of addr s.chunks)) (sym i.whole)
      (go (subst (λ s. holds s.start s.end addr ≡ true) i.whole h))
  where
    go :
        holds i.first.start (last_end i.first i.more) addr ≡ true
        → IsFound addr (chunk_of addr (i.first ∷ i.more))
    go k = chunk_of-IsFound addr i.first i.more i.adjacent (ground arith) (ground arith)

-- The address lies in one of the regions.
abbrev pub is_mapped : ℕ → List Region → Bool
is_mapped addr rs = any (λ r. holds r.start r.end addr) rs

chunk_for-IsFound :
    (addr : ℕ) (rs : List Region)
    → All IsRegion rs
    → is_mapped addr rs ≡ true
    → IsFound addr (chunk_for addr rs)
unfolding chunk_for
chunk_for-IsFound addr [] i h = ground arith
chunk_for-IsFound addr (r ∷ rs) i h = elim (Bool-cases (holds r.start r.end addr)) [
  | inl e ↦ let f = region-IsFound addr r i.0 e in (f.0, rw (e, f.1) refl, f.2)
  | inr e ↦ rw e (chunk_for-IsFound addr rs i.1 (rw e at h))
]

-- For every address in a region of a parsed dump, `GetData` returns data, of at most the size that
-- was asked for.
pub get_data-parse :
    (file : List ℕ) (addr size : ℕ)
    → is_mapped addr (parse file) ≡ true
    → (bytes : List ℕ) × (get_data file (parse file) addr size ≡ some bytes) × (length bytes ≤ size)
unfolding get_data
get_data-parse file addr size h =
    let f = chunk_for-IsFound addr (parse file) (parse-IsRegion file) h in
    let cut = (f.0.end - addr) % 2 ^ 32 in
    (
      take (if ltb cut size then cut else size) (drop (f.0.offset + (addr - f.0.start)) file),
      rw f.1 refl,
      short cut (drop (f.0.offset + (addr - f.0.start)) file),
    )
  where
    short : (cut : ℕ) (l : List ℕ) → length (take (if ltb cut size then cut else size) l) ≤ size
    short cut l = ground (arith, length-take (if ltb cut size then cut else size) l)
