-- ===== src/Common/Tests.antt =====
-- Boolean tests on numbers, the conditional, case splits that keep an equation, and map updates.
use Prim.Native.Nat.{ℕ, ◌≤◌, ◌<◌, compare, Ordering}
use mathlib.Core.Path.{◌≡◌, refl, subst}
use mathlib.Core.Logic.{◌↔◌, ◌⊎◌, inl, inr}
use mathlib.Core.Bool.{Bool, true, false}
use mathlib.Core.Option.{Option, none, some}
use native.Mathlib.Omega.{arith}

abbrev pub ltb : ℕ → ℕ → Bool
ltb a b = elim (compare a b) [ Ordering.lt ↦ true | _ ↦ false ]

abbrev pub leb : ℕ → ℕ → Bool
leb a b = elim (compare a b) [ Ordering.gt ↦ false | _ ↦ true ]

infix 50 ◌==◌
abbrev pub ◌==◌ : ℕ → ℕ → Bool
a == b = elim (compare a b) [ Ordering.eq ↦ true | _ ↦ false ]

infix 1 if◌then◌else◌
abbrev pub if◌then◌else◌ {ℓ} : {A : Type ℓ} → Bool → A → A → A
if true then x else y = x
if false then x else y = y

pub ltb→lt : (a b : ℕ) → ltb a b ≡ true → a < b
ltb→lt a b h = ground arith

pub leb→le : (a b : ℕ) → leb a b ≡ true → a ≤ b
leb→le a b h = ground arith

pub ==_iff : (a b : ℕ) → ((a == b) ≡ true) ↔ (a ≡ b)
==_iff a b = ground arith

pub ==_refl : (a : ℕ) → (a == a) ≡ true
==_refl a = ground arith

pub Bool-cases : (b : Bool) → (b ≡ true) ⊎ (b ≡ false)
Bool-cases true = inl refl
Bool-cases false = inr refl

pub Option-cases {ℓ} : {A : Type ℓ} (o : Option A) → (o ≡ none) ⊎ ((a : A) × (o ≡ some a))
Option-cases none = inl refl
Option-cases (some a) = inr (a, refl)

-- Go's `m[k] = v` and, with the zero value for `v`, `delete(m, k)`.
abbrev pub update {ℓ} : {A : Type ℓ} → (ℕ → A) → ℕ → A → ℕ → A
update m k v j = if k == j then v else m j

-- A read after a write is the value written, or a read before it.
pub update-cases {ℓ} :
    {A : Type ℓ} (m : ℕ → A) (k : ℕ) (v : A) (j : ℕ) (x : A)
    → update m k v j ≡ x
    → ((k ≡ j) × (v ≡ x)) ⊎ (m j ≡ x)
update-cases m k v j x h = elim (Bool-cases (k == j)) [
  | inl e ↦ inl ((==_iff k j).0 e, rw e at h)
  | inr e ↦ inr (rw e at h)
]

-- The same of a map of maps.
pub update-update_cases {ℓ} :
    {A : Type ℓ} (m : ℕ → ℕ → A) (k l : ℕ) (v : A) (i j : ℕ) (x : A)
    → update m k (update (m k) l v) i j ≡ x
    → ((k ≡ i) × (l ≡ j) × (v ≡ x)) ⊎ (m i j ≡ x)
update-update_cases m k l v i j x h = elim (Bool-cases (k == i)) [
  | inl e ↦ elim (update-cases (m k) l v j x (rw e at h)) [
    | inl p ↦ inl ((==_iff k i).0 e, p.0, p.1)
    | inr p ↦ inr (subst (λ n. m n j ≡ x) ((==_iff k i).0 e) p)
  ]
  | inr e ↦ inr (rw e at h)
]

pub some_cancel {ℓ} : {A : Type ℓ} {a b : A} → some a ≡ some b → a ≡ b
some_cancel h = cc
