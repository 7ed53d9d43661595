-- ===== src/Rules/Sigma/Compile/Modifiers.antt =====
-- The modifiers of a field: what a matcher that they make accepts.
use gasha_sandbox.Common.{
  ℕ, ◌≡◌, refl, sym, subst, ◌∙◌, inl, inr, Bool, true, false, ◌&&◌, not, some, List, [], ◌∷◌, ◌++◌,
  map, arith, is_nil, any, All, Bool-cases, some_cancel,
}
use gasha_sandbox.Common.Text.{
  Text, codes, text_eq, lower_byte, lower, has_prefix, has_suffix, contains, contains_byte,
}
use gasha_sandbox.Common.Suffix.{lower-append, has_suffix-snoc}
use gasha_sandbox.Common.Stars.{trim-without, trim-cons, trim-snoc, split-once, lower-without_star}
use gasha_sandbox.Monitor.Events.{Event}
use mathlib.Core.List.{reverse, reverse_aux}
use gasha_sandbox.Rules.Sigma.Types.{SigmaFieldMatcher, text, items, Host, print_scalar}
use gasha_sandbox.Rules.Sigma.Fields.{
  wildcard_match, any_match, extract_field, field_matcher_matches,
}
use gasha_sandbox.Rules.Sigma.Compile.{
  plain_matcher, surround, is_modifier, apply_modifiers, compile_field_matcher,
}

-- The modifiers that say where in the field a value stands.
pub data Place : Type 0 where
  contains_it : Place
  starts_with_it : Place
  ends_with_it : Place

unfoldable pub modifier : Place → Text
modifier contains_it = codes "contains"
modifier starts_with_it = codes "startswith"
modifier ends_with_it = codes "endswith"

unfoldable pub stands : Place → Text → Text → Bool
stands contains_it field v = contains field v
stands starts_with_it field v = has_prefix field v
stands ends_with_it field v = has_suffix field v

unfoldable pub pattern_of : Place → Text → Text
pattern_of contains_it v = surround v
pattern_of starts_with_it v = v ++ codes "*"
pattern_of ends_with_it v = codes "*" ++ v

abbrev pub Clean : Text → Type 0
Clean v = contains_byte b'*' v ≡ false

no_last_star :
    (c : ℕ) (w r : Text) → Clean (c ∷ w) → has_prefix (reverse_aux (c ∷ w) r) (b'*' ∷ []) ≡ false
unfolding has_prefix contains_byte
no_last_star c [] r h = ground (arith, h)
no_last_star c (d ∷ w) r h = no_last_star d w (c ∷ r) (ground arith)

no_star_suffix : (c : ℕ) (w : Text) → Clean (c ∷ w) → has_suffix (b'*' ∷ c ∷ w) (b'*' ∷ []) ≡ false
unfolding has_suffix
no_star_suffix c w h = no_last_star c w (b'*' ∷ []) h

has_suffix_nil : (s : Text) → has_suffix s [] ≡ true
unfolding has_suffix has_prefix
has_suffix_nil s = has_prefix_nil (reverse s)
  where
    has_prefix_nil : (t : Text) → has_prefix t [] ≡ true
    has_prefix_nil [] = refl
    has_prefix_nil (c ∷ t) = refl

no_first_star : (c : ℕ) (w t : Text) → Clean (c ∷ w) → has_prefix (c ∷ t) (b'*' ∷ []) ≡ false
unfolding has_prefix contains_byte
no_first_star c w t h = ground (arith, h)

star_prefix : (t : Text) → has_prefix (b'*' ∷ t) (b'*' ∷ []) ≡ true
unfolding has_prefix
star_prefix t = refl

contains_nil : (s : Text) → contains s [] ≡ true
unfolding contains has_prefix
contains_nil [] = refl
contains_nil (c ∷ s) = refl

wildcard_match-around :
    (s w : Text) → Clean w → wildcard_match s (b'*' ∷ (w ++ b'*' ∷ [])) ≡ contains s w
unfolding wildcard_match codes
wildcard_match-around s w h =
    rw
      (
        star_prefix (w ++ b'*' ∷ []),
        has_suffix-snoc (b'*' ∷ w) b'*',
        trim-cons b'*' (w ++ b'*' ∷ []),
        trim-snoc b'*' w h,
      )
      refl

wildcard_match-before : (s w : Text) → Clean w → wildcard_match s (w ++ b'*' ∷ []) ≡ has_prefix s w
unfolding wildcard_match codes
wildcard_match-before s [] h = rw (contains_nil s) refl
wildcard_match-before s (c ∷ w) h =
    rw
      (no_first_star c w (w ++ b'*' ∷ []) h, has_suffix-snoc (c ∷ w) b'*', trim-snoc b'*' (c ∷ w) h)
      refl

wildcard_match-behind : (s w : Text) → Clean w → wildcard_match s (b'*' ∷ w) ≡ has_suffix s w
unfolding wildcard_match codes
wildcard_match-behind s [] h = rw (contains_nil s) (sym (has_suffix_nil s))
wildcard_match-behind s (c ∷ w) h =
    rw (no_star_suffix c w h, trim-cons b'*' (c ∷ w), trim-without b'*' (c ∷ w) h) refl

surround-Clean : (v : Text) → Clean v → surround v ≡ b'*' ∷ (v ++ b'*' ∷ [])
unfolding surround codes has_prefix
surround-Clean [] h = refl
surround-Clean (c ∷ v) h = rw (no_first_star c v v h) refl

lower-star : (v : Text) → lower (v ++ b'*' ∷ []) ≡ lower v ++ b'*' ∷ []
lower-star v = lower-append v (b'*' ∷ []) ∙ (unfold lower lower_byte in refl)

wildcard_match-stands :
    (p : Place) (s v : Text)
    → Clean v
    → wildcard_match s (lower (pattern_of p v)) ≡ stands p s (lower v)
unfolding pattern_of stands codes lower
wildcard_match-stands contains_it s v h =
    rw (surround-Clean v h, lower-append (b'*' ∷ []) (v ++ b'*' ∷ []), lower-star v)
      (wildcard_match-around s (lower v) (lower-without_star v h))
wildcard_match-stands starts_with_it s v h =
    rw (lower-star v) (wildcard_match-before s (lower v) (lower-without_star v h))
wildcard_match-stands ends_with_it s v h =
    rw (lower-append (b'*' ∷ []) v) (wildcard_match-behind s (lower v) (lower-without_star v h))

-- The matcher for a field with one of the modifiers.
any_match-stands :
    (p : Place) (s : Text) (vs : List Text)
    → All Clean vs
    → any_match s (map (pattern_of p) vs) ≡ any (λ v. stands p s (lower v)) vs
any_match-stands p s [] h = refl
any_match-stands p s (v ∷ vs) h =
    rw (wildcard_match-stands p s v h.0, any_match-stands p s vs h.1) refl

apply_modifiers-place :
    (p : Place) (h : Host) (field : Text) (vs : List Text)
    → apply_modifiers h field (modifier p ∷ []) vs false
      ≡ some (plain_matcher field (map (pattern_of p) vs) false)
unfolding apply_modifiers modifier pattern_of is_modifier lower codes text_eq
apply_modifiers-place contains_it h field vs = refl
apply_modifiers-place starts_with_it h field vs = refl
apply_modifiers-place ends_with_it h field vs = refl

modifier-no_bar : (p : Place) → contains_byte b'|' (modifier p) ≡ false
unfolding modifier contains_byte codes
modifier-no_bar contains_it = refl
modifier-no_bar starts_with_it = refl
modifier-no_bar ends_with_it = refl

print-texts : (vs : List Text) → map print_scalar (map text vs) ≡ vs
unfolding print_scalar
print-texts [] = refl
print-texts (v ∷ vs) = rw (print-texts vs) refl

pub compile_field_matcher-place :
    (p : Place) (h : Host) (field : Text) (vs : List Text)
    → contains_byte b'|' field ≡ false
    → compile_field_matcher h (field ++ b'|' ∷ modifier p) (items (map text vs))
      ≡ some (plain_matcher field (map (pattern_of p) vs) false)
unfolding compile_field_matcher
compile_field_matcher-place p h field vs one_field =
    rw (split-once b'|' field (modifier p) one_field (modifier-no_bar p), print-texts vs)
      (apply_modifiers-place p h field vs)

-- A field with "contains", "startswith" or "endswith" matches an event exactly when the event has a
-- value for it, that is not empty, in which, in lower case, one of the given values stands at that
-- place; the name of the field has no bar and the values have no star.
pub field_matcher_matches-stands :
    (p : Place) (h : Host) (field : Text) (vs : List Text) (fm : SigmaFieldMatcher) (ev : Event)
    → contains_byte b'|' field ≡ false
    → All Clean vs
    → compile_field_matcher h (field ++ b'|' ∷ modifier p) (items (map text vs)) ≡ some fm
    → field_matcher_matches h fm ev ≡ (
        not (is_nil (extract_field h field ev))
        && any (λ v. stands p (lower (extract_field h field ev)) (lower v)) vs)
unfolding field_matcher_matches
field_matcher_matches-stands p h field vs fm ev one_field clean compiled =
    subst
      (λ m. field_matcher_matches h m ev ≡ (
        not (is_nil (extract_field h field ev))
        && any (λ v. stands p (lower (extract_field h field ev)) (lower v)) vs))
      (some_cancel (sym (compile_field_matcher-place p h field vs one_field) ∙ compiled))
      (rw (any_match-stands p (lower (extract_field h field ev)) vs clean)
        (elim (Bool-cases (is_nil (extract_field h field ev))) [
          | inl e ↦ rw e refl
          | inr e ↦ rw e refl
        ]))
