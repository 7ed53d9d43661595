-- ===== src/Rules/Sigma/Fields.antt =====
-- pkg/rules/sigma_loader.go: one field of an event against the values of a matcher.
use gasha_sandbox.Common.{
  ℕ, ◌+◌, Bool, true, false, ◌&&◌, ◌||◌, not, Option, none, some, List, [], ◌∷◌, ◌++◌, ltb, ◌==◌,
  if◌then◌else◌, is_nil, length, any,
}
use gasha_sandbox.Common.Text.{
  Text, codes, text_eq, lower, has_prefix, has_suffix, contains, member, lookup, decimal,
}
use gasha_sandbox.Common.Words.{trim}
use gasha_sandbox.Monitor.Events.{Event, Fields, event_type_name}
use gasha_sandbox.Rules.Sigma.Types.{
  SigmaFieldMatcher, SigmaSelector, CompiledSigmaRule, Host, sprint,
}
use gasha_sandbox.Rules.Sigma.Sources.{aliases}

abbrev is_star : ℕ → Bool
is_star c = c == b'*'

unfoldable pub wildcard_match : Text → Text → Bool
unfolding has_prefix has_suffix contains trim text_eq
wildcard_match s pattern =
    let core = trim is_star pattern in
    if has_prefix pattern (codes "*") && has_suffix pattern (codes "*")
    then contains s core
    else if has_prefix pattern (codes "*")
    then has_suffix s core
    else if has_suffix pattern (codes "*")
    then has_prefix s core
    else text_eq s pattern || contains s pattern

-- The first entry whose key is `key` in lower case.
unfoldable pub field_of : Host → Text → Fields → Option Text
field_of h key [] = none
field_of h key ((k, v) ∷ fields) =
    let rest = field_of h key fields in if text_eq (lower k) key then some (sprint h v) else rest

abbrev or_else : Option Text → Text → Text
or_else none d = d
or_else (some v) d = v

abbrev mapped_field : Host → Option Text → Fields → Option Text
mapped_field h none fields = none
mapped_field h (some key) fields = field_of h key fields

-- The names that are no key of the data.
unfoldable pub own_field : Text → Event → Text
own_field lf ev =
    if member lf (codes "eventid" ∷ codes "event_id" ∷ [])
    then (if ltb 0 ev.event_id then decimal ev.event_id else [])
    else if text_eq lf (codes "pid")
    then decimal ev.pid
    else if member lf (codes "event_type" ∷ codes "eventtype" ∷ [])
    then event_type_name ev.event_type
    else if text_eq lf (codes "category")
    then ev.category
    else []

unfoldable pub extract_field : Host → Text → Event → Text
unfolding field_of own_field
extract_field h field ev =
    let lf = lower field in
    or_else (field_of h lf ev.fields)
      (or_else (mapped_field h (lookup lf aliases) ev.fields) (own_field lf ev))

abbrev all_match : Text → List Text → Bool
all_match lval [] = true
all_match lval (p ∷ ps) = wildcard_match lval (lower p) && all_match lval ps

abbrev pub any_match : Text → List Text → Bool
any_match lval [] = false
any_match lval (p ∷ ps) = wildcard_match lval (lower p) || any_match lval ps

unfoldable pub field_matcher_matches : Host → SigmaFieldMatcher → Event → Bool
unfolding extract_field
field_matcher_matches h fm ev =
    let val = extract_field h fm.field_name ev in
    if is_nil val
    then false
    else if any (λ re. h.regexp_matches re val) fm.regexes
    then true
    else if fm.match_all
    then all_match (lower val) fm.values && not (is_nil fm.values)
    else any_match (lower val) fm.values

abbrev all_fields : Host → List SigmaFieldMatcher → Event → Bool
all_fields h [] ev = true
all_fields h (fm ∷ fms) ev = field_matcher_matches h fm ev && all_fields h fms ev

unfoldable pub selector_matches_event : Host → SigmaSelector → Event → Bool
selector_matches_event h sel ev = all_fields h sel.fields ev && not (is_nil sel.fields)

unfoldable pub flatten_fields : Host → Fields → Text
flatten_fields h [] = []
flatten_fields h ((k, v) ∷ fields) = sprint h v ++ codes " " ++ flatten_fields h fields

-- How many keywords the data of the event contain.
unfoldable pub keyword_count : Text → List Text → ℕ
keyword_count serialised [] = 0
keyword_count serialised (kw ∷ kws) =
    (if contains serialised (lower kw) then 1 else 0) + keyword_count serialised kws

unfoldable pub eval_keywords : Host → CompiledSigmaRule → Event → Bool
unfolding flatten_fields keyword_count
eval_keywords h rule ev =
    let matched = keyword_count (lower (flatten_fields h ev.fields)) rule.keyword_list in
    if rule.keywords_all then matched == length rule.keyword_list else ltb 0 matched
