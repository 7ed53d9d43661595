-- ===== src/Extractor/Utils/Calls.antt =====
-- `FindCallXrefs`: the scan for CALL instructions.
-- The result map is a function, `[]` for a key that is not there. Data are shorter than 2^32 bytes.
use gasha_sandbox.Common.{
  ℕ, zero, suc, ◌+◌, ◌-◌, ◌*◌, ◌^◌, ◌≤◌, ◌<◌, ◌≡◌, refl, ◌∙◌, sym, subst, ==_iff, Bool, true, false,
  ◌&&◌, ◌||◌, not, Option, none, some, List, [], ◌∷◌, ◌++◌, arith, ltb, leb, ◌==◌, if◌then◌else◌,
  length, get_or, update, Bool-cases, inl, inr, append-nil, append_assoc, any,
}

-- The bytes before a CALL that make it a false positive.
unfoldable pub is_false_positive : ℕ → ℕ → Bool
is_false_positive a b = (a == 0x81 || a == 0xC7) && (b == 0x40 || b == 0x45 || b == 0x75)

abbrev byte : List ℕ → ℕ → ℕ
byte bytes i = get_or bytes i 0

-- The four bytes behind the opcode, the lowest first.
unfoldable pub displacement : List ℕ → ℕ → ℕ
displacement bytes rva =
    byte bytes (rva + 1)
    + 256 * byte bytes (rva + 2)
    + 65536 * byte bytes (rva + 3)
    + 16777216 * byte bytes (rva + 4)

-- The address of the next instruction plus the signed displacement, where it lies in the range.
unfoldable pub call_target : ℕ → ℕ → ℕ → ℕ → Option ℕ
call_target start end rva rel =
    if ltb rel (2 ^ 31)
    then if leb start (rva + 5 + rel) && ltb (rva + 5 + rel) end then some (rva + 5 + rel) else none
    else if leb (start + 2 ^ 32) (rva + 5 + rel) && ltb (rva + 5 + rel) (end + 2 ^ 32)
    then some (rva + 5 + rel - 2 ^ 32)
    else none

-- What the body of the loop finds at `rva`.
unfoldable pub call_at : List ℕ → ℕ → ℕ → ℕ → Option ℕ
unfolding call_target displacement is_false_positive
call_at bytes start end rva =
    if byte bytes rva == 0xE8
    then if leb 2 rva && is_false_positive (byte bytes (rva - 2)) (byte bytes (rva - 1))
      then none
      else call_target start end rva (displacement bytes rva)
    else none

abbrev pub Xrefs : Type 0
Xrefs = ℕ → List ℕ

abbrev pub add_xref : ℕ → Option ℕ → Xrefs → Xrefs
add_xref rva none m = m
add_xref rva (some target) m = update m target (m target ++ rva ∷ [])

-- The loop, with `n` rounds left from `rva`; it ends where no instruction fits.
unfoldable pub scan_calls : ℕ → List ℕ → ℕ → ℕ → ℕ → Xrefs → Xrefs
scan_calls zero bytes start end rva m = m
scan_calls (suc n) bytes start end rva m =
    let rest =
      scan_calls n bytes start end (rva + 1) (add_xref rva (call_at bytes start end rva) m) in
    if ltb (length bytes) (rva + 5) then m else rest

unfoldable pub find_call_xrefs : List ℕ → ℕ → ℕ → Xrefs
find_call_xrefs bytes start end =
    let last = if ltb (length bytes) end then length bytes else end in
    scan_calls (last - start) bytes start last start (λ _. [])

abbrev calls : ℕ → Option ℕ → Bool
calls target none = false
calls target (some t) = t == target

-- As a specification: the CALL at `rva` leads to `target`. The displacement counts from the next
-- instruction and is signed; the target lies in the range; the two bytes before are no pair of
-- those that hold 0xE8 as an operand.
abbrev pub leads_to : List ℕ → ℕ → ℕ → ℕ → ℕ → Bool
leads_to bytes start end target rva =
    let b = λ (i : ℕ). get_or bytes i 0 in
    let rel = b (rva + 1) + 256 * (b (rva + 2) + 256 * (b (rva + 3) + 256 * b (rva + 4))) in
    (b rva == 0xE8)
    && (not (
          leb 2 rva
          && (any (λ c. b (rva - 2) == c) (0x81 ∷ 0xC7 ∷ [])
              && any (λ c. b (rva - 1) == c) (0x40 ∷ 0x45 ∷ 0x75 ∷ [])))
        && (leb start target
            && (ltb target end
                && rva + 5 + rel == (if ltb rel (2 ^ 31) then target else target + 2 ^ 32))))

calls-call_at :
    (bytes : List ℕ) (start end target rva : ℕ)
    → calls target (call_at bytes start end rva) ≡ leads_to bytes start end target rva
unfolding call_at call_target displacement is_false_positive
calls-call_at bytes start end target rva = ground arith

-- As a specification: the positions, in order, whose instruction fits and calls `target`.
pub callers : ℕ → List ℕ → ℕ → ℕ → ℕ → ℕ → List ℕ
callers zero bytes start end target rva = []
callers (suc n) bytes start end target rva =
    let rest = callers n bytes start end target (rva + 1) in
    if leb (rva + 5) (length bytes) && leads_to bytes start end target rva then rva ∷ rest else rest

callers_past :
    (n : ℕ) (bytes : List ℕ) (start end target rva : ℕ)
    → length bytes < rva + 5
    → callers n bytes start end target rva ≡ []
unfolding callers
callers_past zero bytes start end target rva h = refl
callers_past (suc n) bytes start end target rva h =
    let e : leb (rva + 5) (length bytes) ≡ false = ground arith in
    rw e (callers_past n bytes start end target (rva + 1) (omega arith))

add_xref_lem :
    (rva target : ℕ) (found : Option ℕ) (m : Xrefs) (rest : List ℕ)
    → add_xref rva found m target ++ rest
      ≡ m target ++ (if calls target found then rva ∷ rest else rest)
add_xref_lem rva target none m rest = refl
add_xref_lem rva target (some t) m rest = elim (Bool-cases (t == target)) [
  | inl e ↦ rw e (
      subst (λ u. (m u ++ rva ∷ []) ++ rest ≡ m target ++ (rva ∷ rest))
        (sym ((==_iff t target).0 e)) (append_assoc (m target) (rva ∷ []) rest))
  | inr e ↦ rw e
]

scan_calls-callers :
    (n : ℕ) (bytes : List ℕ) (start end rva target : ℕ) (m : Xrefs)
    → scan_calls n bytes start end rva m target ≡ m target ++ callers n bytes start end target rva
unfolding scan_calls callers
scan_calls-callers zero bytes start end rva target m = rw append-nil
scan_calls-callers (suc n) bytes start end rva target m =
    elim (Bool-cases (ltb (length bytes) (rva + 5))) [
      | inl e ↦
          let f : leb (rva + 5) (length bytes) ≡ false = ground arith in
          rw (e, f, callers_past n bytes start end target (rva + 1) (ground arith)) (rw append-nil)
      | inr e ↦
          let f : leb (rva + 5) (length bytes) ≡ true = ground arith in
          rw (e, f)
            (scan_calls-callers n bytes start end (rva + 1) target _
              ∙ (rw (sym (calls-call_at bytes start end target rva))
                  (add_xref_lem rva target (call_at bytes start end rva) m _)))
    ]

-- The sources listed for a target are, in order, the positions of the range, cut to the data, at
-- which a CALL that fits in the data leads to the target, the target being in the range and the two
-- bytes before the CALL being none of the six pairs that mark a false positive.
pub find_call_xrefs-callers :
    (bytes : List ℕ) (start end target : ℕ)
    → find_call_xrefs bytes start end target ≡ (
        let last = if ltb (length bytes) end then length bytes else end in
        callers (last - start) bytes start last target start)
unfolding find_call_xrefs
find_call_xrefs-callers bytes start end target = scan_calls-callers _ bytes start _ start target _

-- A call is listed only for targets of the range.
pub call_at_range :
    (bytes : List ℕ) (start end rva target : ℕ)
    → call_at bytes start end rva ≡ some target
    → (start ≤ target) × (target < end)
unfolding call_at call_target
call_at_range bytes start end rva target h = ground arith
