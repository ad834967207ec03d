-- ===== src/Prelude/Class.antt =====
-- Equality tests as an interface, and tables keyed by a type that has one.
use mathlib.Core.Path.{◌≡◌, refl, sym, ap}
use mathlib.Core.Logic.{◌↔◌, ◌≢◌, ◌⊎◌, inl, inr}
use mathlib.Core.Bool.{Bool, true, false, not}
use mathlib.Core.Option.{Option, none, some}
use native.Mathlib.Omega.{arith}
use Prim.Native.Nat.{ℕ}
use mite.Prelude.Tests.{nat_eq, nat_eq_iff, if◌then◌else◌, Bool-cases}

pub record Eq {ℓ} (A : Type ℓ) : Type ℓ where
  pub test : A → A → Bool
  pub test_iff : (a b : A) → (test a b ≡ true) ↔ (a ≡ b)

instance abbrev pub eq_nat : Eq ℕ
eq_nat = record { test = nat_eq; test_iff = nat_eq_iff }

-- A pointer that is not nil, and what it points to, compared with a value.
abbrev pub is_nil {ℓ} : {A : Type ℓ} → Option A → Bool
is_nil none = true
is_nil (some a) = false

infix 50 ◌==◌ ◌!=◌
abbrev pub ◌==◌ {ℓ} : {A : Type ℓ} ⦃e : Eq A⦄ → A → A → Bool
◌==◌ ⦃e⦄ = e.test

abbrev pub ◌!=◌ {ℓ} : {A : Type ℓ} ⦃e : Eq A⦄ → A → A → Bool
a != b = not (a == b)

abbrev pub points_to {ℓ} : {A : Type ℓ} ⦃e : Eq A⦄ → Option A → A → Bool
points_to none a = false
points_to (some b) a = b == a

module _ {ℓ} {A : Type ℓ} ⦃e : Eq A⦄ where
  pub ==_refl : (a : A) → (a == a) ≡ true
  ==_refl a = (e.test_iff a a).1 refl

  pub eq_of_== : (a b : A) → (a == b) ≡ true → a ≡ b
  eq_of_== a b h = (e.test_iff a b).0 h

  pub points_to-eq : (o : Option A) (a : A) → points_to o a ≡ true → o ≡ some a
  points_to-eq none a h = ground arith
  points_to-eq (some b) a h = ground (arith, e.test_iff b a)

  pub ==_ne : (a b : A) → a ≢ b → (a == b) ≡ false
  ==_ne a b h = elim (Bool-cases (a == b)) [ inl t ↦ absurd (h (eq_of_== a b t)) | inr f ↦ f ]

module _ {ℓ κ} {K : Type ℓ} {V : Type κ} ⦃e : Eq K⦄ where
  -- A table of rows by primary key; a row is written, or deleted by writing `none`.
  abbrev pub write : (K → Option V) → K → Option V → K → Option V
  write t k v j = if k == j then v else t j

  pub write_self : (t : K → Option V) (k : K) (v : Option V) → write t k v k ≡ v
  write_self t k v = ground (arith, ==_refl k)

  pub write_ne : (t : K → Option V) (k j : K) (v : Option V) → k ≢ j → write t k v j ≡ t j
  write_ne t k j v h = ground (arith, ==_ne k j h)

  -- A row of a written table is the written row or an old one.
  pub write-cases :
      (t : K → Option V) (k j : K) (v w : V)
      → write t k (some v) j ≡ some w
      → ((j ≡ k) × (w ≡ v)) ⊎ ((j ≢ k) × (t j ≡ some w))
  write-cases t k j v w h = elim (Bool-cases (k == j)) [
    | inl p ↦ inl (sym (eq_of_== k j p), ground (arith, p, h))
    | inr p ↦ inr (λ e. ground (arith, p, ap (λ x. k == x) e, ==_refl k), ground (arith, p, h))
  ]
