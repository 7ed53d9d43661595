-- ===== src/Rules/Sigma/Compile/Lists.antt =====
-- Selectors that are written as a list.
use gasha_sandbox.Common.{◌≡◌, refl, subst, false, none, some, List, [], some_cancel}
use gasha_sandbox.Common.Text.{Text, codes, text_eq, lower, member, lookup}
use gasha_sandbox.Monitor.Events.{Event}
use gasha_sandbox.Rules.Sigma.Types.{SigmaSelector, Scalar, sequence, Host}
use gasha_sandbox.Rules.Sigma.Sources.{aliases}
use gasha_sandbox.Rules.Sigma.Fields.{
  field_of, own_field, extract_field, field_matcher_matches, selector_matches_event,
}
use gasha_sandbox.Rules.Sigma.Compile.{compile_selector}

any_alias : lookup (codes "_any") aliases ≡ none
unfolding aliases codes lookup text_eq
any_alias = refl

any_own_field : (ev : Event) → own_field (codes "_any") ev ≡ []
unfolding own_field codes member text_eq
any_own_field ev = refl

any_lower : lower (codes "_any") ≡ codes "_any"
unfolding lower codes
any_lower = refl

any_extract_field :
    (h : Host) (ev : Event)
    → field_of h (codes "_any") ev.fields ≡ none
    → extract_field h (codes "_any") ev ≡ []
unfolding extract_field
any_extract_field h ev none_named = rw (any_lower, none_named, any_alias, any_own_field ev) refl

-- A selector that is written as a list of values matches no event, whatever its data hold, unless a
-- field of the event is called "_any".
pub compile_selector-sequence :
    (h : Host) (n : Text) (vs : List Scalar) (sel : SigmaSelector) (ev : Event)
    → compile_selector h n (sequence vs) ≡ some sel
    → field_of h (codes "_any") ev.fields ≡ none
    → selector_matches_event h sel ev ≡ false
unfolding compile_selector selector_matches_event field_matcher_matches
compile_selector-sequence h n vs sel ev compiled none_named =
    subst (λ s. selector_matches_event h s ev ≡ false) (some_cancel compiled)
      (rw (any_extract_field h ev none_named) refl)
