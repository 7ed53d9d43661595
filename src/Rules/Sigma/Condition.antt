-- ===== src/Rules/Sigma/Condition.antt =====
-- pkg/rules/sigma_loader.go: the parser of conditions. A position is the list of the tokens from
-- there, the rule's selectors are their names, and `keywords_all` is passed along, since "of
-- keywords" sets it. Every call costs a unit of fuel; with enough of it there is always a result.
pub mod Total
pub mod Print
pub mod Count
pub mod Reads
pub mod RoundTrip
use gasha_sandbox.Common.{
  ℕ, zero, suc, ◌+◌, ◌*◌, ◌≡◌, refl, Bool, true, false, ◌&&◌, ◌||◌, not, Option, none, some, List,
  [], ◌∷◌, ◌++◌, ◌==◌, if◌then◌else◌, is_nil, length,
}
use gasha_sandbox.Common.Text.{
  Text, String, codes, text_eq, lower, has_prefix, has_suffix, trim_suffix,
}
use gasha_sandbox.Common.Words.{fields, replace_byte, scan_int}
use gasha_sandbox.Common.Ints.{ℤ, pos, negsuc}
use gasha_sandbox.Rules.Sigma.Types.{
  SigmaCondExpr, name, wildcard, both, either, negation, keywords,
}

unfoldable pub tokenise_cond : Text → List Text
tokenise_cond cond = fields (replace_byte b')' (codes " ) ") (replace_byte b'(' (codes " ( ") cond))

-- `strings.ToLower(tok) == word`
unfoldable pub is_word : String → Text → Bool
is_word w tok = text_eq (lower tok) (codes w)

unfoldable pub is_open : Text → Bool
is_open tok = text_eq tok (codes "(")

unfoldable pub is_close : Text → Bool
is_close tok = text_eq tok (codes ")")

-- An expression, the tokens behind it, and the flag.
abbrev pub Parsed : Type 0
Parsed = SigmaCondExpr × List Text × Bool

abbrev pub and_then :
    Option Parsed → (SigmaCondExpr → List Text → Bool → Option Parsed) → Option Parsed
and_then none f = none
and_then (some (e, rest, ka)) f = f e rest ka

-- How many selectors have a name with the prefix.
unfoldable pub name_count : Text → List Text → ℕ
name_count prefix [] = 0
name_count prefix (n ∷ names) = (if has_prefix n prefix then 1 else 0) + name_count prefix names

unfoldable pub build_any_of : SigmaCondExpr
build_any_of = wildcard (codes "selection") (pos 1)

unfoldable pub build_all_of : List Text → SigmaCondExpr
build_all_of names =
    let count = name_count (codes "selection") names in
    if count == 0
    then wildcard [] (pos (length names))
    else wildcard (codes "selection") (pos count)

abbrev is_some : Option ℤ → Bool
is_some none = false
is_some (some n) = true

unfoldable pub is_quantifier : Text → Bool
is_quantifier tok =
    is_word "all" tok || (is_word "any" tok || (is_word "1" tok || is_some (scan_int (lower tok))))

abbrev pub of_follows : List Text → Bool
of_follows [] = false
of_follows (o ∷ []) = false
of_follows (o ∷ target ∷ toks) = is_word "of" o

abbrev pub at_least_one : Option ℤ → ℤ
at_least_one none = pos 1
at_least_one (some (pos zero)) = pos 1
at_least_one (some n) = n

-- `minCount`, which is -1 for "all"
unfoldable pub quantity : Text → ℤ
quantity tok =
    if is_word "all" tok
    then negsuc 0
    else if is_word "any" tok
    then pos 1
    else at_least_one (scan_int (lower tok))

abbrev pub is_all : ℤ → Bool
is_all (negsuc zero) = true
is_all n = false

unfoldable pub quantified : List Text → ℤ → Text → SigmaCondExpr
quantified names n target =
    if is_word "them" target
    then (if is_all n then build_all_of names else build_any_of)
    else if is_word "keywords" target
    then keywords
    else if has_suffix target (codes "*")
    then wildcard (trim_suffix target (codes "*"))
        (if is_all n then pos (name_count (trim_suffix target (codes "*")) names) else n)
    else name target

-- `parseQuantifier`, behind "N of"
unfoldable pub parse_quantifier : List Text → Bool → Text → List Text → Parsed
unfolding quantified quantity
parse_quantifier names ka tok [] = (build_any_of, [], ka)
parse_quantifier names ka tok (target ∷ rest) =
    let n = quantity tok in
    let sets_flag = not (is_word "them" target) && is_word "keywords" target in
    (quantified names n target, rest, if sets_flag then is_all n else ka)

abbrev pub after_of : List Text → List Text
after_of [] = []
after_of (o ∷ toks) = toks

abbrev pub skip_close : List Text → List Text
skip_close [] = []
skip_close (t ∷ toks) = if is_close t then toks else t ∷ toks

-- An atom that is no parenthesis.
unfoldable pub plain_atom : List Text → Bool → Text → List Text → Parsed
unfolding parse_quantifier
plain_atom names ka tok toks =
    if is_quantifier tok && of_follows toks
    then parse_quantifier names ka tok (after_of toks)
    else if is_word "keywords" tok
    then (keywords, toks, ka)
    else (name tok, toks, ka)

unfoldable mutual
  unfolding plain_atom

  pub parse_or : ℕ → List Text → Bool → List Text → Option Parsed
  parse_or zero names ka toks = none
  parse_or (suc f) names ka toks =
      and_then (parse_and f names ka toks) λ left rest k. or_loop f names k left rest

  pub or_loop : ℕ → List Text → Bool → SigmaCondExpr → List Text → Option Parsed
  or_loop zero names ka left toks = none
  or_loop (suc f) names ka left [] = some (left, [], ka)
  or_loop (suc f) names ka left (t ∷ toks) =
      let more =
        and_then (parse_and f names ka toks)
          λ right rest k. or_loop f names k (either left right) rest in
      if is_word "or" t then more else some (left, t ∷ toks, ka)

  pub parse_and : ℕ → List Text → Bool → List Text → Option Parsed
  parse_and zero names ka toks = none
  parse_and (suc f) names ka toks =
      and_then (parse_not f names ka toks) λ left rest k. and_loop f names k left rest

  pub and_loop : ℕ → List Text → Bool → SigmaCondExpr → List Text → Option Parsed
  and_loop zero names ka left toks = none
  and_loop (suc f) names ka left [] = some (left, [], ka)
  and_loop (suc f) names ka left (t ∷ toks) =
      let more =
        and_then (parse_not f names ka toks)
          λ right rest k. and_loop f names k (both left right) rest in
      if is_word "and" t then more else some (left, t ∷ toks, ka)

  pub parse_not : ℕ → List Text → Bool → List Text → Option Parsed
  parse_not zero names ka toks = none
  parse_not (suc f) names ka [] = some (name [], [], ka)
  parse_not (suc f) names ka (t ∷ toks) =
      let inner = and_then (parse_not f names ka toks) λ e rest k. some (negation e, rest, k) in
      let atom = parse_atom f names ka t toks in if is_word "not" t then inner else atom

  pub parse_atom : ℕ → List Text → Bool → Text → List Text → Option Parsed
  parse_atom zero names ka tok toks = none
  parse_atom (suc f) names ka tok toks =
      let group = and_then (parse_or f names ka toks) λ e rest k. some (e, skip_close rest, k) in
      if is_open tok then group else some (plain_atom names ka tok toks)

-- `parseCondExpr` on tokens: the expression and the flag.
unfoldable pub parse_tokens : List Text → Bool → List Text → Option Parsed
unfolding parse_or
parse_tokens names ka [] = some (build_any_of, [], ka)
parse_tokens names ka (t ∷ toks) = parse_or (8 * length (t ∷ toks) + 8) names ka (t ∷ toks)

unfoldable pub parse_cond_expr : List Text → Bool → Text → Option Parsed
unfolding parse_tokens tokenise_cond
parse_cond_expr names ka cond = parse_tokens names ka (tokenise_cond cond)
