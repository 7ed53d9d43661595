-- ===== src/Extractor/Utils/Addresses.antt =====
-- What `ExtractIPv4s` returns, and that its fuel is enough.
use gasha_sandbox.Common.{
  ℕ, zero, suc, ◌+◌, ◌≤◌, ◌≡◌, refl, true, false, List, [], ◌∷◌, arith, ltb, length, drop, All,
  All-append, Bool-cases, inl, inr,
}
use gasha_sandbox.Common.Text.{Text, member}
use gasha_sandbox.Extractor.Utils.Dedup.{dedup, dedup_from, IsDistinct, dedup_lem}
use gasha_sandbox.Extractor.Utils.Ipv4.{
  is_valid_ipv4_string, digits_and_dots, address_at, ipv4s_from, extract_ipv4s,
}

abbrev IsAddress : Text → Type 0
IsAddress s = is_valid_ipv4_string s ≡ true

address_at-IsAddress : (s : Text) → address_at s ≡ true → IsAddress (digits_and_dots s)
unfolding address_at
address_at-IsAddress s h = ground arith

-- An address has a digit at least, so the loop moves on.
address_at-nonempty : (s : Text) → address_at s ≡ true → 1 ≤ length (digits_and_dots s)
unfolding address_at digits_and_dots
address_at-nonempty [] h = ground arith
address_at-nonempty (c ∷ s) h = ground arith

ipv4s_from-IsAddress :
    (fuel : ℕ) (text : Text) (i : ℕ) (ips : List Text)
    → All IsAddress ips
    → All IsAddress (ipv4s_from fuel text i ips)
unfolding ipv4s_from
ipv4s_from-IsAddress zero text i ips h = h
ipv4s_from-IsAddress (suc fuel) text i ips h = elim (Bool-cases (ltb (i + 7) (length text))) [
  | inl e ↦ elim (Bool-cases (address_at (drop i text))) [
    | inl a ↦
        rw (e, a)
          (ipv4s_from-IsAddress fuel text _ _
            (All-append IsAddress ips _ h (address_at-IsAddress (drop i text) a, tt)))
    | inr a ↦ rw (e, a) (ipv4s_from-IsAddress fuel text (i + 1) ips h)
  ]
  | inr e ↦ rw e h
]

dedup_from-All : (P : Text → Type 0) (seen ss : List Text) → All P ss → All P (dedup_from seen ss)
unfolding dedup_from
dedup_from-All P seen [] h = tt
dedup_from-All P seen (s ∷ ss) h = elim (Bool-cases (member s seen)) [
  | inl e ↦ rw e (dedup_from-All P seen ss h.1)
  | inr e ↦ rw e (h.0, dedup_from-All P (s ∷ seen) ss h.1)
]

-- Every text that is extracted is a valid address, and none is extracted twice.
pub extract_ipv4s-IsAddress :
    (text : Text)
    → All (λ s. is_valid_ipv4_string s ≡ true) (extract_ipv4s text)
      × IsDistinct (extract_ipv4s text)
unfolding extract_ipv4s dedup
extract_ipv4s-IsAddress text = (
  dedup_from-All IsAddress [] _ (ipv4s_from-IsAddress (length text) text 0 [] tt),
  (dedup_lem _).0,
)

-- Any fuel that reaches the end of the text gives the same addresses: the loop terminates by itself.
pub ipv4s_from-fuel :
    (f g : ℕ) (text : Text) (i : ℕ) (ips : List Text)
    → length text ≤ f + i
    → length text ≤ g + i
    → ipv4s_from f text i ips ≡ ipv4s_from g text i ips
unfolding ipv4s_from
ipv4s_from-fuel zero zero text i ips h k = refl
ipv4s_from-fuel zero (suc g) text i ips h k =
    let e : ltb (i + 7) (length text) ≡ false = ground arith in rw e refl
ipv4s_from-fuel (suc f) zero text i ips h k =
    let e : ltb (i + 7) (length text) ≡ false = ground arith in rw e refl
ipv4s_from-fuel (suc f) (suc g) text i ips h k = elim (Bool-cases (ltb (i + 7) (length text))) [
  | inl e ↦ elim (Bool-cases (address_at (drop i text))) [
    | inl a ↦
        let n : 1 ≤ length (digits_and_dots (drop i text)) = address_at-nonempty (drop i text) a in
        rw (e, a) (ipv4s_from-fuel f g text _ _ (omega arith) (omega arith))
    | inr a ↦ rw (e, a) (ipv4s_from-fuel f g text (i + 1) ips (omega arith) (omega arith))
  ]
  | inr e ↦ rw e refl
]
