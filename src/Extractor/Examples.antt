-- ===== src/Extractor/Examples.antt =====
-- Concrete byte strings for the helpers of the family parsers.
use gasha_sandbox.Common.{
  length, ◌≤◌, ℕ, ◌+◌, ◌≡◌, ◌≢◌, refl, true, none, some, List, [], ◌∷◌, ltb, if◌then◌else◌, All,
}
use gasha_sandbox.Common.Text.{Text, codes}
use gasha_sandbox.Extractor.Utils.Rc4.{
  initial, schedule, rc4_decrypt, rc4_decrypt-rc4_decrypt, count, schedule_permutes,
}
use gasha_sandbox.Extractor.Utils.Sections.{
  Section, section_containing, covers, section_end, section_containing-covers,
}
use gasha_sandbox.Extractor.Utils.Calls.{find_call_xrefs, callers, find_call_xrefs-callers}
use gasha_sandbox.Extractor.Utils.Dedup.{IsDistinct}
use gasha_sandbox.Extractor.Utils.Ipv4.{is_valid_ipv4_string, extract_ipv4s}
use gasha_sandbox.Extractor.Utils.Addresses.{extract_ipv4s-IsAddress}
use gasha_sandbox.Extractor.Procdump.{parse, get_data, chunk_at, coalesce, last_end, little_endian}
use gasha_sandbox.Extractor.Procdump.Regions.{IsRegion, parse-IsRegion}
use gasha_sandbox.Extractor.Procdump.Reads.{is_mapped, get_data-parse}
use gasha_sandbox.Extractor.Utils.Strings.{
  extract_ascii_strings, keep, split_runs, extract_ascii_strings-keep,
}

abbrev bytes : List ℕ
bytes = 1 ∷ 0xE8 ∷ 255 ∷ 7 ∷ []

abbrev key : List ℕ
key = 5 ∷ 9 ∷ []

key_set : key ≢ []
key_set e = cc

rc4_decrypt-rc4_decrypt_example :
    (out : List ℕ) × (rc4_decrypt key bytes ≡ some out) × (rc4_decrypt key out ≡ some bytes)
rc4_decrypt-rc4_decrypt_example = rc4_decrypt-rc4_decrypt key bytes key_set

schedule_permutes_example : count 77 (schedule 256 0 0 key initial) ≡ (if ltb 77 256 then 1 else 0)
schedule_permutes_example = schedule_permutes key 77

abbrev text_section : Section
text_section = record {
  name = codes ".text";
  virtual_address = 4096;
  pointer_to_raw_data = 1024;
  virtual_size = 4096;
  raw_size = 4096;
}

abbrev data_section : Section
data_section = record {
  name = codes ".rdata";
  virtual_address = 8192;
  pointer_to_raw_data = 5120;
  virtual_size = 4096;
  raw_size = 4096;
}

abbrev sections : List Section
sections = text_section ∷ data_section ∷ []

in_text : section_containing sections 5000 ≡ some text_section
unfolding section_containing covers section_end
in_text = refl

in_data : section_containing sections (5000 + 4000) ≡ some data_section
unfolding section_containing covers section_end
in_data = refl

in_none : section_containing sections 100 ≡ none
unfolding section_containing covers section_end
in_none = refl

section_containing-covers_example : covers text_section 5000 ≡ true
section_containing-covers_example = section_containing-covers sections 5000 text_section in_text

abbrev code : List ℕ
code = 0xE8 ∷ 1 ∷ 0 ∷ 0 ∷ 0 ∷ 144 ∷ 195 ∷ 144 ∷ []

find_call_xrefs-callers_example : find_call_xrefs code 0 8 6 ≡ callers 8 code 0 8 6 0
find_call_xrefs-callers_example = find_call_xrefs-callers code 0 8 6

extract_ascii_strings-keep_example : extract_ascii_strings bytes 1 ≡ keep 1 (split_runs [] bytes)
extract_ascii_strings-keep_example = extract_ascii_strings-keep bytes 1

abbrev text : Text
text = codes "at 10.0.0.1 and 10.0.0.1 port 80"

extract_ipv4s-IsAddress_example :
    All (λ s. is_valid_ipv4_string s ≡ true) (extract_ipv4s text) × IsDistinct (extract_ipv4s text)
extract_ipv4s-IsAddress_example = extract_ipv4s-IsAddress text

-- Two chunks in a row, at 4096 and 4098.
abbrev dump : List ℕ
dump =
    0 ∷ 16 ∷ 0 ∷ 0 ∷ 0 ∷ 0 ∷ 0 ∷ 0 ∷ 2 ∷ 0 ∷ 0 ∷ 0 ∷ 0 ∷ 0 ∷ 0 ∷ 0 ∷ 0 ∷ 0 ∷ 0 ∷ 0 ∷ 4 ∷ 0 ∷ 0 ∷ 0
    ∷ 77 ∷ 90 ∷ 2 ∷ 16 ∷ 0 ∷ 0 ∷ 0 ∷ 0 ∷ 0 ∷ 0 ∷ 1 ∷ 0 ∷ 0 ∷ 0 ∷ 0 ∷ 0 ∷ 0 ∷ 0 ∷ 0 ∷ 0 ∷ 0 ∷ 0 ∷ 4
    ∷ 0 ∷ 0 ∷ 0 ∷ 9 ∷ []

parse-IsRegion_example : All IsRegion (parse dump)
parse-IsRegion_example = parse-IsRegion dump

mapped : is_mapped 4098 (parse dump) ≡ true
unfolding parse chunk_at coalesce last_end little_endian
mapped = refl

get_data-parse_example :
    (out : List ℕ) × (get_data dump (parse dump) 4098 8 ≡ some out) × (length out ≤ 8)
get_data-parse_example = get_data-parse dump 4098 8 mapped
