-- ===== src/Rules/Yara/Match/Boolean.antt =====
-- Boolean conditions: sums of products of pattern names, and what becomes of a token "not".
use gasha_sandbox.Common.{
  ◌≡◌, refl, sym, ap, ◌∙◌, inl, inr, Bool, true, false, ◌&&◌, ◌||◌, not, List, [], ◌∷◌, ◌++◌, arith,
  is_nil, any, All, Bool-cases, append_assoc, append-nil,
}
use gasha_sandbox.Common.Text.{Text, String, codes, text_eq, text_eq→≡, lower, has_prefix}
use gasha_sandbox.Common.Words.{trim_space}
use gasha_sandbox.Rules.Yara.Match.{
  MatchSet, is_matched, split_tokens_from, split_tokens, named_term, term_holds, all_terms,
  any_clause, eval_bool_tokens,
}

abbrev pub is_separator : String → Text → Bool
is_separator sep t = text_eq (lower (trim_space t)) (codes sep)

abbrev pub Without : String → List Text → Type 0
Without sep ts = All (λ t. is_separator sep t ≡ false) ts

split_tokens_from-Without :
    (sep : String) (cur ts : List Text)
    → Without sep ts
    → split_tokens_from sep cur ts ≡ (cur ++ ts) ∷ []
unfolding split_tokens_from
split_tokens_from-Without sep cur [] h = rw (append-nil cur) refl
split_tokens_from-Without sep cur (t ∷ ts) h =
    rw (h.0, split_tokens_from-Without sep (cur ++ t ∷ []) ts h.1, append_assoc cur (t ∷ []) ts)
      refl

split_tokens_from-cut :
    (sep : String) (cur ts : List Text) (cut : Text) (rest : List Text)
    → Without sep ts
    → is_separator sep cut ≡ true
    → split_tokens_from sep cur (ts ++ cut ∷ rest) ≡ (cur ++ ts) ∷ split_tokens_from sep [] rest
unfolding split_tokens_from
split_tokens_from-cut sep cur [] cut rest h e = rw (e, append-nil cur) refl
split_tokens_from-cut sep cur (t ∷ ts) cut rest h e =
    rw
      (
        h.0,
        split_tokens_from-cut sep (cur ++ t ∷ []) ts cut rest h.1 e,
        append_assoc cur (t ∷ []) ts,
      )
      refl

-- A name of a pattern: not empty, with no white space about it, and no keyword.
abbrev pub is_name : Text → Bool
is_name t =
    not (is_nil t)
    && (text_eq (trim_space t) t
        && (not (has_prefix t (codes "not "))
            && (not (is_separator "and" t) && not (is_separator "or" t))))

abbrev pub Names : List Text → Type 0
Names ns = (is_nil ns ≡ false) × All (λ n. is_name n ≡ true) ns

unfoldable pub print_clause : List Text → List Text
print_clause [] = []
print_clause (n ∷ []) = n ∷ []
print_clause (n ∷ o ∷ ns) = n ∷ codes "and" ∷ print_clause (o ∷ ns)

unfoldable pub print_sum : List (List Text) → List Text
unfolding print_clause
print_sum [] = []
print_sum (c ∷ []) = print_clause c
print_sum (c ∷ d ∷ cs) = print_clause c ++ codes "or" ∷ print_sum (d ∷ cs)

abbrev pub every_name : List Text → MatchSet → Bool
every_name [] m = true
every_name (n ∷ ns) m = is_matched m n && every_name ns m

and_is_separator : is_separator "and" (codes "and") ≡ true
unfolding lower trim_space codes text_eq
and_is_separator = refl

or_is_separator : is_separator "or" (codes "or") ≡ true
unfolding lower trim_space codes text_eq
or_is_separator = refl

and_is_no_or : is_separator "or" (codes "and") ≡ false
unfolding lower trim_space codes text_eq
and_is_no_or = refl

name-term : (n : Text) (m : MatchSet) → is_name n ≡ true → term_holds (n ∷ []) m ≡ is_matched m n
unfolding named_term
name-term n m h =
    let trimmed : trim_space n ≡ n = text_eq→≡ (trim_space n) n (ground (arith, h)) in
    rw trimmed (ground (arith, h))

print_clause-every_name :
    (ns : List Text) (m : MatchSet)
    → Names ns
    → all_terms (split_tokens_from "and" [] (print_clause ns)) m ≡ every_name ns m
unfolding print_clause
print_clause-every_name [] m h = cc h.0
print_clause-every_name (n ∷ []) m h =
    rw (split_tokens_from-Without "and" [] (n ∷ []) (ground (arith, h.1.0), tt))
      (ap (λ b. b && true) (name-term n m h.1.0))
print_clause-every_name (n ∷ o ∷ ns) m h =
    rw
      (
        split_tokens_from-cut "and" [] (n ∷ []) (codes "and") (print_clause (o ∷ ns))
            (ground (arith, h.1.0), tt) and_is_separator,
        name-term n m h.1.0,
      )
      (ap (λ b. is_matched m n && b) (print_clause-every_name (o ∷ ns) m (refl, h.1.1)))

print_clause-Without : (ns : List Text) → Names ns → Without "or" (print_clause ns)
unfolding print_clause
print_clause-Without [] h = cc
print_clause-Without (n ∷ []) h = (ground (arith, h.1.0), tt)
print_clause-Without (n ∷ o ∷ ns) h =
    (ground (arith, h.1.0), (and_is_no_or, print_clause-Without (o ∷ ns) (refl, h.1.1)))

print_sum-any :
    (cs : List (List Text)) (m : MatchSet)
    → is_nil cs ≡ false
    → All Names cs
    → any_clause (split_tokens_from "or" [] (print_sum cs)) m ≡ any (λ c. every_name c m) cs
unfolding print_sum split_tokens
print_sum-any [] m filled h = cc
print_sum-any (c ∷ []) m filled h =
    rw (split_tokens_from-Without "or" [] (print_clause c) (print_clause-Without c h.0))
      (ap (λ b. b || false) (print_clause-every_name c m h.0))
print_sum-any (c ∷ d ∷ cs) m filled h =
    rw
      (
        split_tokens_from-cut "or" [] (print_clause c) (codes "or") (print_sum (d ∷ cs))
            (print_clause-Without c h.0) or_is_separator,
        print_clause-every_name c m h.0,
      )
      (ap (λ b. every_name c m || b) (print_sum-any (d ∷ cs) m refl h.1))

print_clause-filled :
    (ns : List Text) (rest : List Text)
    → is_nil ns ≡ false
    → is_nil (print_clause ns ++ rest) ≡ false
unfolding print_clause
print_clause-filled [] rest h = cc
print_clause-filled (n ∷ []) rest h = refl
print_clause-filled (n ∷ o ∷ ns) rest h = refl

print_sum-filled :
    (cs : List (List Text)) → is_nil cs ≡ false → All Names cs → is_nil (print_sum cs) ≡ false
unfolding print_sum
print_sum-filled [] filled h = cc
print_sum-filled (c ∷ []) filled h =
    ap is_nil (sym (append-nil (print_clause c))) ∙ print_clause-filled c [] h.0.0
print_sum-filled (c ∷ d ∷ cs) filled h = print_clause-filled c _ h.0.0

-- A condition that is a sum of products of pattern names, joined by "and" and "or", holds exactly
-- when every pattern of some product matched.
pub eval_bool_tokens-print_sum :
    (cs : List (List Text)) (m : MatchSet)
    → is_nil cs ≡ false
    → All Names cs
    → eval_bool_tokens (print_sum cs) m ≡ any (λ c. every_name c m) cs
unfolding eval_bool_tokens split_tokens
eval_bool_tokens-print_sum cs m filled h =
    rw (print_sum-filled cs filled h) (print_sum-any cs m filled h)

not_is_no_separator :
    (is_separator "and" (codes "not") ≡ false) × (is_separator "or" (codes "not") ≡ false)
unfolding lower trim_space codes text_eq
not_is_no_separator = (refl, refl)

not-named_term :
    (m : MatchSet)
    → is_matched m (codes "not") ≡ false
    → named_term (trim_space (codes "not")) m ≡ false
unfolding named_term trim_space codes has_prefix
not-named_term m h = h

not-all_terms :
    (m : MatchSet) (cur ts : List Text)
    → is_matched m (codes "not") ≡ false
    → all_terms (split_tokens_from "and" (codes "not" ∷ cur) ts) m ≡ false
unfolding split_tokens_from
not-all_terms m cur [] h = rw (not-named_term m h) refl
not-all_terms m cur (t ∷ ts) h = elim (Bool-cases (is_separator "and" t)) [
  | inl e ↦ rw (e, not-named_term m h) refl
  | inr e ↦ rw e (not-all_terms m (cur ++ t ∷ []) ts h)
]

-- Tokens that start with "not" and have no "or" never hold, whatever matched, unless a pattern is called
-- "not".
pub eval_bool_tokens-not :
    (m : MatchSet) (ts : List Text)
    → Without "or" ts
    → is_matched m (codes "not") ≡ false
    → eval_bool_tokens (codes "not" ∷ ts) m ≡ false
unfolding eval_bool_tokens split_tokens
eval_bool_tokens-not m ts no_or h =
    rw (split_tokens_from-Without "or" [] (codes "not" ∷ ts) (not_is_no_separator.1, no_or))
      (rw (split_start ts) (rw (not-all_terms m [] ts h) refl))
  where
    split_start :
        (us : List Text)
        → split_tokens_from "and" [] (codes "not" ∷ us)
          ≡ split_tokens_from "and" (codes "not" ∷ []) us
    split_start us = rw not_is_no_separator.0 refl
