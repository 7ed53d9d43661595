-- ===== src/Extractor/Utils/Rc4.antt =====
-- `RC4Decrypt`. `none` is the panic of the division by the length of an empty key.
-- The state `s` is an array of 256 bytes; indices are taken modulo 256, which is `& 0xFF`.
use Prim.Native.Nat.{bit_xor}
use gasha_sandbox.Common.{
  ℕ, zero, suc, ◌+◌, ◌%◌, ◌≤◌, ◌<◌, ◌≡◌, ◌≢◌, refl, ap, ◌∙◌, if◌then◌else◌, ◌==◌, ltb, leb, ◌&&◌,
  List, [], ◌∷◌, Option, none, some, length, length-set, get_or, set, arith,
}
use gasha_sandbox.Common.Bits.{bit_xor-cancel}

-- The bytes `i, i + 1, …`, `n` of them.
range_from : ℕ → ℕ → List ℕ
range_from i zero = []
range_from i (suc n) = i ∷ range_from (i + 1) n

unfoldable pub initial : List ℕ
unfolding range_from
initial = range_from 0 256

-- `s[i], s[j] = s[j], s[i]`
unfoldable pub swap : List ℕ → ℕ → ℕ → List ℕ
swap s i j = set (set s i (get_or s j 0)) j (get_or s i 0)

-- The key schedule: `n` rounds are left, from round `i`.
unfoldable pub schedule : ℕ → ℕ → ℕ → List ℕ → List ℕ → List ℕ
schedule zero i j key s = s
schedule (suc n) i j key s =
    let j' = (j + get_or s i 0 + get_or key (i % length key) 0) % 256 in
    schedule n (i + 1) j' key (swap s i j')

-- The decryption loop.
unfoldable pub decrypt_from : ℕ → ℕ → List ℕ → List ℕ → List ℕ
decrypt_from i k s [] = []
decrypt_from i k s (b ∷ bs) =
    let i' = (i + 1) % 256 in
    let k' = (k + get_or s i' 0) % 256 in
    let s' = swap s i' k' in
    bit_xor b (get_or s' ((get_or s' i' 0 + get_or s' k' 0) % 256) 0) ∷ decrypt_from i' k' s' bs

unfoldable pub rc4_decrypt : List ℕ → List ℕ → Option (List ℕ)
rc4_decrypt [] bytes = none
rc4_decrypt (k ∷ ks) bytes = some (decrypt_from 0 0 (schedule 256 0 0 (k ∷ ks) initial) bytes)

decrypt_from-decrypt_from :
    (i k : ℕ) (s bytes : List ℕ) → decrypt_from i k s (decrypt_from i k s bytes) ≡ bytes
unfolding decrypt_from
decrypt_from-decrypt_from i k s [] = refl
decrypt_from-decrypt_from i k s (b ∷ bs) =
    let i' = (i + 1) % 256 in
    let k' = (k + get_or s i' 0) % 256 in
    rw (bit_xor-cancel b _, decrypt_from-decrypt_from i' k' (swap s i' k') bs)

-- With a key that is not empty the cipher returns, and it is its own inverse: what the key encrypts,
-- it decrypts.
pub rc4_decrypt-rc4_decrypt :
    (key bytes : List ℕ)
    → key ≢ []
    → (out : List ℕ) × (rc4_decrypt key bytes ≡ some out) × (rc4_decrypt key out ≡ some bytes)
unfolding rc4_decrypt
rc4_decrypt-rc4_decrypt [] bytes n = elim (n refl) [ ]
rc4_decrypt-rc4_decrypt (k ∷ ks) bytes n =
    let s : List ℕ = schedule 256 0 0 (k ∷ ks) initial in
    (decrypt_from 0 0 s bytes, refl, ap some (decrypt_from-decrypt_from 0 0 s bytes))

length-decrypt_from :
    (i k : ℕ) (s bytes : List ℕ) → length (decrypt_from i k s bytes) ≡ length bytes
unfolding decrypt_from
length-decrypt_from i k s [] = refl
length-decrypt_from i k s (b ∷ bs) =
    let i' = (i + 1) % 256 in
    let k' = (k + get_or s i' 0) % 256 in ap suc (length-decrypt_from i' k' (swap s i' k') bs)

-- How often a byte stands in the state.
hit : ℕ → ℕ → ℕ
hit a x = if x == a then 1 else 0

abbrev pub count : ℕ → List ℕ → ℕ
count a [] = 0
count a (x ∷ xs) = (if x == a then 1 else 0) + count a xs

count-set :
    (a : ℕ) (s : List ℕ) (i v : ℕ)
    → i < length s
    → count a (set s i v) + hit a (get_or s i 0) ≡ count a s + hit a v
unfolding hit
count-set a [] i v h = absurd (omega arith)
count-set a (x ∷ s) zero v h = omega arith
count-set a (x ∷ s) (suc i) v h = omega (arith, count-set a s i v (omega arith))

get_or-set : (s : List ℕ) (i j v : ℕ) → get_or s j 0 ≡ v → get_or (set s i v) j 0 ≡ v
get_or-set [] i j v h = h
get_or-set (x ∷ s) zero zero v h = refl
get_or-set (x ∷ s) zero (suc j) v h = h
get_or-set (x ∷ s) (suc i) zero v h = h
get_or-set (x ∷ s) (suc i) (suc j) v h = get_or-set s i j v h

count-swap :
    (a : ℕ) (s : List ℕ) (i j : ℕ) → i < length s → j < length s → count a (swap s i j) ≡ count a s
unfolding swap
count-swap a s i j hi hj = omega (
  arith,
  count-set a s i (get_or s j 0) hi,
  count-set a (set s i (get_or s j 0)) j (get_or s i 0) (rw length-set hj),
  ap (hit a) (get_or-set s i j (get_or s j 0) refl),
)

length-swap : (s : List ℕ) (i j : ℕ) → length (swap s i j) ≡ length s
unfolding swap
length-swap s i j = length-set _ j _ ∙ length-set s i _

count-schedule :
    (a n i j : ℕ) (key s : List ℕ)
    → i + n ≤ 256
    → length s ≡ 256
    → count a (schedule n i j key s) ≡ count a s
unfolding schedule
count-schedule a zero i j key s h l = refl
count-schedule a (suc n) i j key s h l =
    let j' = (j + get_or s i 0 + get_or key (i % length key) 0) % 256 in
    count-schedule a n (i + 1) j' key (swap s i j') (omega arith) (length-swap s i j' ∙ l)
    ∙ count-swap a s i j' (omega arith) (omega arith)

count-range_from :
    (a i n : ℕ) → count a (range_from i n) ≡ (if leb i a && ltb a (i + n) then 1 else 0)
unfolding range_from
count-range_from a i zero = ground arith
count-range_from a i (suc n) = ground (arith, count-range_from a (i + 1) n)

length-range_from : (i n : ℕ) → length (range_from i n) ≡ n
unfolding range_from
length-range_from i zero = refl
length-range_from i (suc n) = ap suc (length-range_from (i + 1) n)

-- For every key, the scheduled state holds each byte once and nothing else.
pub schedule_permutes :
    (key : List ℕ) (a : ℕ) → count a (schedule 256 0 0 key initial) ≡ (if ltb a 256 then 1 else 0)
unfolding initial
schedule_permutes key a =
    count-schedule a 256 0 0 key (range_from 0 256) (omega arith) (length-range_from 0 256)
    ∙ count-range_from a 0 256
    ∙ (ground arith)
