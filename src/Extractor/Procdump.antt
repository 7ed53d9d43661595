-- ===== src/Extractor/Procdump.antt =====
-- pkg/extractor/procdump/reader.go: the parser of memory dumps and the read of an address. A file
-- is the list of its bytes; addresses are 64-bit and wrap.
pub mod Regions
pub mod Reads
pub mod Protection
use gasha_sandbox.Common.{
  ℕ, zero, suc, ◌+◌, ◌-◌, ◌*◌, ◌%◌, ◌^◌, Bool, true, false, ◌&&◌, ◌||◌, not, Option, none, some,
  List, [], ◌∷◌, ◌++◌, ltb, leb, ◌==◌, if◌then◌else◌, length, take, drop, get_or, is_nil,
}

pub record Chunk : Type 0 where
  pub start : ℕ
  pub end : ℕ
  pub size : ℕ
  pub prot : ℕ
  pub state : ℕ
  pub kind : ℕ
  pub offset : ℕ
  pub is_pe : Bool

pub record Region : Type 0 where
  pub start : ℕ
  pub end : ℕ
  pub size : ℕ
  pub prot : ℕ
  pub is_pe : Bool
  pub chunks : List Chunk

-- The number that `n` bytes from `i` are, the lowest first.
unfoldable pub little_endian : List ℕ → ℕ → ℕ → ℕ
little_endian file i zero = 0
little_endian file i (suc n) = get_or file i 0 + 256 * little_endian file (i + 1) n

abbrev same_prot : ℕ → List Chunk → Bool
same_prot prot [] = true
same_prot prot (c ∷ cs) = c.prot == prot && same_prot prot cs

unfoldable pub last_end : Chunk → List Chunk → ℕ
last_end c [] = c.end
last_end c (d ∷ ds) = last_end d ds

-- `coalesce` of a group that is not empty.
unfoldable pub coalesce : Chunk → List Chunk → Region
unfolding last_end
coalesce c cs = record {
  start = c.start;
  end = last_end c cs;
  size = (last_end c cs + 2 ^ 64 - c.start) % 2 ^ 64;
  prot = if same_prot c.prot cs then c.prot else 0;
  is_pe = c.is_pe;
  chunks = c ∷ cs;
}

-- The chunk whose header stands at `pos`.
unfoldable pub chunk_at : List ℕ → ℕ → Chunk
unfolding little_endian
chunk_at file pos = record {
  start = little_endian file pos 8;
  end = (little_endian file pos 8 + little_endian file (pos + 8) 4) % 2 ^ 64;
  size = little_endian file (pos + 8) 4;
  prot = little_endian file (pos + 20) 4;
  state = little_endian file (pos + 12) 4;
  kind = little_endian file (pos + 16) 4;
  offset = pos + 24;
  is_pe =
      leb (pos + 26) (length file)
      && (get_or file (pos + 24) 0 == b'M' && get_or file (pos + 25) 0 == b'Z');
}

-- `if len(curChunks) > 0 { … coalesce(curChunks) }`
unfoldable pub finalise : List Chunk → List Region → List Region
unfolding coalesce
finalise [] regions = regions
finalise (c ∷ cs) regions = regions ++ coalesce c cs ∷ []

-- The loop from `pos`, on fuel; it ends where no header fits.
unfoldable pub parse_from : ℕ → List ℕ → ℕ → ℕ → List Chunk → List Region → List Region
unfolding finalise chunk_at
parse_from zero file pos last cur regions = finalise cur regions
parse_from (suc fuel) file pos last cur regions =
    let c = chunk_at file pos in
    let broken = parse_from fuel file (c.offset + c.size) c.end (c ∷ []) (finalise cur regions) in
    let joined = parse_from fuel file (c.offset + c.size) c.end (cur ++ c ∷ []) regions in
    if ltb (length file) (pos + 24)
    then finalise cur regions
    else if not (c.start == last)
    then broken
    else joined

-- Each round moves on by a header at least, so the length is fuel enough.
unfoldable pub parse : List ℕ → List Region
unfolding parse_from
parse file = parse_from (length file) file 0 0 [] []

abbrev pub holds : ℕ → ℕ → ℕ → Bool
holds start end addr = leb start addr && ltb addr end

unfoldable pub chunk_of : ℕ → List Chunk → Option Chunk
chunk_of addr [] = none
chunk_of addr (c ∷ cs) =
    let rest = chunk_of addr cs in if holds c.start c.end addr then some c else rest

abbrev pub or_next : Option Chunk → Option Chunk → Option Chunk
or_next none next = next
or_next (some c) next = some c

unfoldable pub chunk_for : ℕ → List Region → Option Chunk
unfolding chunk_of
chunk_for addr [] = none
chunk_for addr (r ∷ rs) =
    let rest = chunk_for addr rs in
    let here = or_next (chunk_of addr r.chunks) rest in
    if holds r.start r.end addr then here else rest

abbrev pub bytes_of : List ℕ → ℕ → ℕ → Option Chunk → Option (List ℕ)
bytes_of file addr size none = none
bytes_of file addr size (some c) =
    let max_size = (c.end - addr) % 2 ^ 32 in
    some (
      take (if ltb max_size size then max_size else size) (drop (c.offset + (addr - c.start)) file))

-- `GetData`; `none` is the nil of an address that is not mapped.
unfoldable pub get_data : List ℕ → List Region → ℕ → ℕ → Option (List ℕ)
unfolding chunk_for
get_data file regions addr size = bytes_of file addr size (chunk_for addr regions)

-- `GetChunkData`
unfoldable pub get_chunk_data : List ℕ → Chunk → List ℕ
get_chunk_data file c = take c.size (drop c.offset file)
