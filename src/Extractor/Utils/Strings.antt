-- ===== src/Extractor/Utils/Strings.antt =====
-- `ExtractASCIIStrings`.
use gasha_sandbox.Common.{
  ℕ, suc, ◌+◌, ◌-◌, ◌≡◌, refl, sym, ap, ◌∙◌, ◌&&◌, not, Option, none, some, List, [], ◌∷◌, ◌++◌,
  arith, leb, if◌then◌else◌, length, length-append, take, drop, is_nil, append_assoc, append-nil,
  Bool-cases, inl, inr,
}
use gasha_sandbox.Common.Text.{Text, codes}
use gasha_sandbox.Extractor.Utils.Dedup.{is_printable}

-- `data[start:i]`, where the run is long enough.
abbrev flush : Text → ℕ → Option ℕ → ℕ → List Text → List Text
flush bytes min_len none i results = results
flush bytes min_len (some start) i results =
    if leb min_len (i - start) then results ++ take (i - start) (drop start bytes) ∷ [] else results

abbrev begin : Option ℕ → ℕ → Option ℕ
begin none i = some i
begin (some start) i = some start

-- The loop at index `i`, with the bytes that are left; `none` is a `start` of -1.
unfoldable pub ascii_from : Text → ℕ → Option ℕ → ℕ → Text → List Text → List Text
ascii_from bytes min_len start i [] results = flush bytes min_len start i results
ascii_from bytes min_len start i (b ∷ bs) results =
    ascii_from bytes min_len (if is_printable b then begin start i else none) (i + 1) bs
      (if is_printable b then results else flush bytes min_len start i results)

unfoldable pub extract_ascii_strings : Text → ℕ → List Text
unfolding ascii_from
extract_ascii_strings bytes min_len = ascii_from bytes min_len none 0 bytes []

-- As a specification: the runs between the bytes that do not print, `cur` being the open one.
unfoldable pub split_runs : Text → Text → List Text
split_runs cur [] = cur ∷ []
split_runs cur (b ∷ bs) =
    let more = split_runs (cur ++ b ∷ []) bs in
    let next = cur ∷ split_runs [] bs in if is_printable b then more else next

-- The runs that are not empty and long enough.
unfoldable pub keep : ℕ → List Text → List Text
keep min_len [] = []
keep min_len (r ∷ rs) =
    let rest = keep min_len rs in
    if not (is_nil r) && leb min_len (length r) then r ∷ rest else rest

abbrev start_of : Text → Text → Option ℕ
start_of before [] = none
start_of before (c ∷ cur) = some (length before)

drop-append {ℓ} : {A : Type ℓ} (xs ys : List A) → drop (length xs) (xs ++ ys) ≡ ys
drop-append [] ys = refl
drop-append (x ∷ xs) ys = drop-append xs ys

take-append {ℓ} : {A : Type ℓ} (xs ys : List A) → take (length xs) (xs ++ ys) ≡ xs
take-append [] ys = refl
take-append (x ∷ xs) ys = ap (λ l. x ∷ l) (take-append xs ys)

-- The slice from the start of the open run is that run.
flush_lem :
    (before cur rest : Text) (min_len : ℕ) (results : List Text)
    → flush
        (before ++ (cur ++ rest))
        min_len
        (start_of before cur)
        (length before + length cur)
        results
      ≡ results ++ keep min_len (cur ∷ [])
unfolding keep
flush_lem before [] rest min_len results = sym (append-nil results)
flush_lem before (c ∷ cur) rest min_len results =
    let n : length before + suc (length cur) - length before ≡ suc (length cur) = omega arith in
    rw (n, drop-append before (c ∷ (cur ++ rest)))
      (elim (Bool-cases (leb min_len (suc (length cur)))) [
        | inl e ↦ rw (e, take-append cur rest)
        | inr e ↦ rw (e, append-nil)
      ])

keep-cons :
    (min_len : ℕ) (r : Text) (rs : List Text)
    → keep min_len (r ∷ []) ++ keep min_len rs ≡ keep min_len (r ∷ rs)
unfolding keep
keep-cons min_len r rs = elim (Bool-cases (not (is_nil r) && leb min_len (length r))) [
  | inl e ↦ rw e
  | inr e ↦ rw e
]

begin-start_of :
    (before cur : Text) (b : ℕ)
    → begin (start_of before cur) (length before + length cur) ≡ start_of before (cur ++ b ∷ [])
begin-start_of before [] b = ap some (omega arith)
begin-start_of before (c ∷ cur) b = refl

ascii_from-keep :
    (bytes before cur bs : Text) (min_len i : ℕ) (results : List Text)
    → bytes ≡ before ++ (cur ++ bs)
    → i ≡ length before + length cur
    → ascii_from bytes min_len (start_of before cur) i bs results
      ≡ results ++ keep min_len (split_runs cur bs)
unfolding ascii_from split_runs
ascii_from-keep bytes before cur [] min_len i results h n =
    rw (h, n) (flush_lem before cur [] min_len results)
ascii_from-keep bytes before cur (b ∷ bs) min_len i results h n =
    elim (Bool-cases (is_printable b)) [
      | inl e ↦
          rw (e, n, begin-start_of before cur b)
            (ascii_from-keep bytes before (cur ++ b ∷ []) bs min_len _ results
              (h ∙ ap (λ l. before ++ l) (sym (append_assoc cur (b ∷ []) bs)))
              (omega (arith, length-append cur (b ∷ []))))
      | inr e ↦
          rw (e, n)
            (ascii_from-keep bytes (before ++ (cur ++ b ∷ [])) [] bs min_len _ _
                (h
                  ∙ (ap (λ l. before ++ l) (sym (append_assoc cur (b ∷ []) bs))
                      ∙ sym (append_assoc before (cur ++ b ∷ []) bs)))
                (omega (arith, length-append before (cur ++ b ∷ []), length-append cur (b ∷ [])))
              ∙ (ap (λ l. l ++ keep min_len (split_runs [] bs))
                    (rw h (flush_lem before cur (b ∷ bs) min_len results))
                  ∙ (append_assoc results (keep min_len (cur ∷ []))
                        (keep min_len (split_runs [] bs))
                      ∙ ap (λ l. results ++ l) (keep-cons min_len cur (split_runs [] bs)))))
    ]

-- The strings found are the runs of printable bytes that are not empty and at least `min_len`
-- long, in order: no run is cut, missed or reported twice.
pub extract_ascii_strings-keep :
    (bytes : Text) (min_len : ℕ)
    → extract_ascii_strings bytes min_len ≡ keep min_len (split_runs [] bytes)
unfolding extract_ascii_strings
extract_ascii_strings-keep bytes min_len = ascii_from-keep bytes [] [] bytes min_len 0 [] refl refl

strings_test :
    extract_ascii_strings (codes "ab" ++ 0 ∷ codes "cmd.exe" ++ 1 ∷ codes "http") 4
    ≡ codes "cmd.exe" ∷ codes "http" ∷ []
unfolding extract_ascii_strings codes
strings_test = refl
