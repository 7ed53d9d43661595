-- ===== src/Extractor/Procdump/Regions.antt =====
-- What the regions of a parsed dump are, and what a read gives.
use gasha_sandbox.Common.{
  ℕ, zero, suc, ◌+◌, ◌≤◌, ◌≡◌, refl, sym, ◌∙◌, true, List, [], ◌∷◌, ◌++◌, arith, ltb, ◌==◌, length,
  All, All-append, Bool-cases, inl, inr, ==_iff,
}
use gasha_sandbox.Extractor.Procdump.{
  Chunk, Region, last_end, coalesce, chunk_at, finalise, parse_from, parse,
}

-- Each chunk starts where the one before it ends.
abbrev pub AreAdjacent : Chunk → List Chunk → Type 0
AreAdjacent c [] = Unit
AreAdjacent c (d ∷ ds) = (d.start ≡ c.end) × AreAdjacent d ds

-- A region is the coalescing of chunks that follow one another without a gap.
pub record IsRegion (r : Region) : Type 0 where
  pub first : Chunk
  pub more : List Chunk
  pub whole : r ≡ coalesce first more
  pub adjacent : AreAdjacent first more

-- The open group, which ends at `last`.
abbrev IsOpen : ℕ → List Chunk → Type 0
IsOpen last [] = Unit
IsOpen last (c ∷ cs) = AreAdjacent c cs × (last_end c cs ≡ last)

last_end-append_one : (c : Chunk) (cs : List Chunk) (d : Chunk) → last_end c (cs ++ d ∷ []) ≡ d.end
unfolding last_end
last_end-append_one c [] d = refl
last_end-append_one c (e ∷ es) d = last_end-append_one e es d

AreAdjacent-append_one :
    (c : Chunk) (cs : List Chunk) (d : Chunk)
    → AreAdjacent c cs
    → last_end c cs ≡ d.start
    → AreAdjacent c (cs ++ d ∷ [])
unfolding last_end
AreAdjacent-append_one c [] d a e = (sym e, tt)
AreAdjacent-append_one c (x ∷ xs) d a e = (a.0, AreAdjacent-append_one x xs d a.1 e)

IsOpen-append_one :
    (last : ℕ) (cur : List Chunk) (d : Chunk)
    → IsOpen last cur
    → d.start ≡ last
    → IsOpen d.end (cur ++ d ∷ [])
unfolding last_end
IsOpen-append_one last [] d o e = (tt, refl)
IsOpen-append_one last (c ∷ cs) d o e =
    (AreAdjacent-append_one c cs d o.0 (o.1 ∙ sym e), last_end-append_one c cs d)

finalise-IsRegion :
    (last : ℕ) (cur : List Chunk) (regions : List Region)
    → IsOpen last cur
    → All IsRegion regions
    → All IsRegion (finalise cur regions)
unfolding finalise
finalise-IsRegion last [] regions o h = h
finalise-IsRegion last (c ∷ cs) regions o h =
    All-append IsRegion regions (coalesce c cs ∷ []) h
      (record { first = c; more = cs; whole = refl; adjacent = o.0 }, tt)

parse_from-IsRegion :
    (fuel : ℕ) (file : List ℕ) (pos last : ℕ) (cur : List Chunk) (regions : List Region)
    → IsOpen last cur
    → All IsRegion regions
    → All IsRegion (parse_from fuel file pos last cur regions)
unfolding parse_from last_end
parse_from-IsRegion zero file pos last cur regions o h = finalise-IsRegion last cur regions o h
parse_from-IsRegion (suc fuel) file pos last cur regions o h =
    let c = chunk_at file pos in
    elim (Bool-cases (ltb (length file) (pos + 24))) [
      | inl e ↦ rw e (finalise-IsRegion last cur regions o h)
      | inr e ↦ elim (Bool-cases (c.start == last)) [
        | inl s ↦
            rw (e, s)
              (parse_from-IsRegion fuel file _ _ (cur ++ c ∷ []) regions
                (IsOpen-append_one last cur c o ((==_iff _ last).0 s)) h)
        | inr s ↦
            rw (e, s)
              (parse_from-IsRegion fuel file _ _ (c ∷ []) (finalise cur regions) (tt, refl)
                (finalise-IsRegion last cur regions o h))
      ]
    ]

-- Every region of a parsed dump, whatever the bytes of the file, is the coalescing of chunks that
-- follow one another without a gap.
pub parse-IsRegion : (file : List ℕ) → All IsRegion (parse file)
unfolding parse
parse-IsRegion file = parse_from-IsRegion (length file) file 0 0 [] [] tt tt

-- Any fuel that reaches the end of the file gives the same regions: the loop terminates by itself.
pub parse_from-fuel :
    (f g : ℕ) (file : List ℕ) (pos last : ℕ) (cur : List Chunk) (regions : List Region)
    → length file ≤ f + pos
    → length file ≤ g + pos
    → parse_from f file pos last cur regions ≡ parse_from g file pos last cur regions
unfolding parse_from chunk_at
parse_from-fuel zero zero file pos last cur regions h k = refl
parse_from-fuel zero (suc g) file pos last cur regions h k =
    let e : ltb (length file) (pos + 24) ≡ true = ground arith in rw e refl
parse_from-fuel (suc f) zero file pos last cur regions h k =
    let e : ltb (length file) (pos + 24) ≡ true = ground arith in rw e refl
parse_from-fuel (suc f) (suc g) file pos last cur regions h k =
    let c = chunk_at file pos in
    let same : (n l : ℕ) (cs : List Chunk) (rs : List Region)
        → pos + 24 ≤ n
        → parse_from f file n l cs rs ≡ parse_from g file n l cs rs =
      λ n l cs rs m. parse_from-fuel f g file n l cs rs (omega arith) (omega arith) in
    elim (Bool-cases (ltb (length file) (pos + 24))) [
      | inl e ↦ rw e refl
      | inr e ↦ elim (Bool-cases (c.start == last)) [
        | inl s ↦ rw (e, s) (same (c.offset + c.size) c.end (cur ++ c ∷ []) regions (omega arith))
        | inr s ↦
            rw (e, s) (same (c.offset + c.size) c.end (c ∷ []) (finalise cur regions) (omega arith))
      ]
    ]
