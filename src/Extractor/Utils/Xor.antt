-- ===== src/Extractor/Utils/Xor.antt =====
-- `XORDecode` and `XORDecodeMultiKey`.
use Prim.Native.Nat.{bit_xor}
use gasha_sandbox.Common.{ℕ, ◌+◌, ◌%◌, ◌≡◌, refl, List, [], ◌∷◌, map, length, get_or, arith}
use gasha_sandbox.Common.Bits.{bit_xor-cancel}

unfoldable pub xor_decode : List ℕ → ℕ → List ℕ
xor_decode data' key = map (λ b. bit_xor b key) data'

-- The loop from index `i` on.
xor_from : ℕ → List ℕ → List ℕ → List ℕ
xor_from i key [] = []
xor_from i key (b ∷ bs) = bit_xor b (get_or key (i % length key) 0) ∷ xor_from (i + 1) key bs

-- An empty key leaves the data as they are.
unfoldable pub xor_decode_multi_key : List ℕ → List ℕ → List ℕ
unfolding xor_from
xor_decode_multi_key data' [] = data'
xor_decode_multi_key data' (k ∷ ks) = xor_from 0 (k ∷ ks) data'

-- Decoding twice with one key gives the data back.
pub xor_decode-xor_decode :
    (bytes : List ℕ) (key : ℕ) → xor_decode (xor_decode bytes key) key ≡ bytes
unfolding xor_decode
xor_decode-xor_decode [] key = refl
xor_decode-xor_decode (b ∷ bs) key = rw (bit_xor-cancel b key, xor_decode-xor_decode bs key)

xor_from-xor_from : (i : ℕ) (key bytes : List ℕ) → xor_from i key (xor_from i key bytes) ≡ bytes
unfolding xor_from
xor_from-xor_from i key [] = refl
xor_from-xor_from i key (b ∷ bs) = rw (bit_xor-cancel b _, xor_from-xor_from (i + 1) key bs)

-- The same with a repeating key of any length, the empty one included.
pub multi_key-multi_key :
    (bytes key : List ℕ) → xor_decode_multi_key (xor_decode_multi_key bytes key) key ≡ bytes
unfolding xor_decode_multi_key
multi_key-multi_key bytes [] = refl
multi_key-multi_key bytes (k ∷ ks) = xor_from-xor_from 0 (k ∷ ks) bytes

-- A key of one byte repeats it.
xor_from-one : (i k : ℕ) (bytes : List ℕ) → xor_from i (k ∷ []) bytes ≡ xor_decode bytes k
unfolding xor_from xor_decode
xor_from-one i k [] = refl
xor_from-one i k (b ∷ bs) = let e : i % 1 ≡ 0 = omega arith in rw (e, xor_from-one (i + 1) k bs)
