-- ===== src/Rules/Sigma/Scope/Visit.antt =====
-- The loop over the candidates of an event: the order of the keys only orders the hits.
use mathlib.Core.List.{Permᴰ}
use mathlib.Core.List.Permᴰ
use gasha_sandbox.Common.{ℕ, refl, List, [], ◌∷◌, ◌++◌, get_elem?}
use gasha_sandbox.Monitor.Events.{Event}
use gasha_sandbox.Rules.Sigma.Types.{CompiledSigmaRule, Host}
use gasha_sandbox.Rules.Sigma.Scope.{visit, collect_hits}

append_swap {ℓ} : {A : Type ℓ} (xs ys zs : List A) → Permᴰ (xs ++ (ys ++ zs)) (ys ++ (xs ++ zs))
append_swap [] ys zs = Permᴰ.refl (ys ++ zs)
append_swap (x ∷ xs) ys zs =
    Permᴰ.trans (Permᴰ.cons refl (append_swap xs ys zs)) (Permᴰ.symm (Permᴰ.middle x ys (xs ++ zs)))

-- The keys in another order give the same hits in another order.
pub collect_hits_perm :
    (h : Host) (ev : Event) (rs : List CompiledSigmaRule) {ks ls : List ℕ}
    → Permᴰ ks ls
    → Permᴰ (collect_hits h ev rs ks) (collect_hits h ev rs ls)
unfolding collect_hits
collect_hits_perm h ev rs Permᴰ.nil = Permᴰ.nil
collect_hits_perm h ev rs (Permᴰ.cons {b = b} e p) =
    rw e (Permᴰ.append_left (visit h ev (get_elem? rs b)) (collect_hits_perm h ev rs p))
collect_hits_perm h ev rs (Permᴰ.swap {a' = a} {b' = b} {l = l} e f) =
    rw (e, f)
      (append_swap (visit h ev (get_elem? rs b)) (visit h ev (get_elem? rs a))
        (collect_hits h ev rs l))
collect_hits_perm h ev rs (Permᴰ.trans p q) =
    Permᴰ.trans (collect_hits_perm h ev rs p) (collect_hits_perm h ev rs q)
