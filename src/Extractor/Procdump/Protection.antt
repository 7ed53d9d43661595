-- ===== src/Extractor/Procdump/Protection.antt =====
-- pkg/extractor/procdump/reader.go: the protection flags of a page.
use gasha_sandbox.Common.{ℕ, ◌/◌, ◌%◌, ◌≡◌, refl, Bool, ◌||◌, ◌==◌, if◌then◌else◌}
use gasha_sandbox.Common.Text.{Text, codes}

-- `prot & PageGuard != 0`
abbrev is_guard : ℕ → Bool
is_guard prot = prot / 256 % 2 == 1

unfoldable pub prot_string : ℕ → Text
prot_string prot =
    let p = prot % 256 in
    if is_guard prot
    then codes "G"
    else if p == 0x01
    then codes "NOACCESS"
    else if p == 0x02
    then codes "R"
    else if p == 0x04
    then codes "RW"
    else if p == 0x08
    then codes "RWC"
    else if p == 0x10
    then codes "X"
    else if p == 0x20
    then codes "RX"
    else if p == 0x40
    then codes "RWX"
    else if p == 0x80
    then codes "RWXC"
    else codes "UNKNOWN"

unfoldable pub is_executable : ℕ → Bool
is_executable prot = let p = prot % 256 in p == 0x10 || p == 0x20 || p == 0x40 || p == 0x80

unfoldable pub is_writable : ℕ → Bool
is_writable prot = let p = prot % 256 in p == 0x04 || p == 0x08 || p == 0x40 || p == 0x80

guarded_test : prot_string 0x140 ≡ codes "G"
unfolding prot_string codes
guarded_test = refl

shellcode_test : prot_string 0x40 ≡ codes "RWX"
unfolding prot_string codes
shellcode_test = refl
