-- ===== src/Base/Tests.antt =====
-- Boolean tests on the native numbers, options as calls that may panic, and key equality.
use Prim.Native.Nat.{ℕ, ◌-◌, ◌%◌, compare, Ordering}
use Prim.Native.String.{String}
use mathlib.Core.Path.{◌≡◌, refl}
use mathlib.Core.Logic.{◌↔◌, ◌⊎◌, inl, inr}
use mathlib.Core.Bool.{Bool, true, false}
use mathlib.Core.Option.{Option, none, some}
use native.Mathlib.Omega.{arith}
use text.Mathlib.Text.{◌==◌ as str_eq}
use text.Mathlib.TextEquality.{eq_iff}

abbrev pub ltb : ℕ → ℕ → Bool
ltb a b = elim (compare a b) [ Ordering.lt ↦ true | _ ↦ false ]

abbrev pub leb : ℕ → ℕ → Bool
leb a b = elim (compare a b) [ Ordering.gt ↦ false | _ ↦ true ]

abbrev pub nat_eq : ℕ → ℕ → Bool
nat_eq a b = elim (compare a b) [ Ordering.eq ↦ true | _ ↦ false ]

infix 1 if◌then◌else◌
abbrev pub if◌then◌else◌ {ℓ} : {A : Type ℓ} → Bool → A → A → A
if true then x else y = x
if false then x else y = y

pub nat_eq_iff : (a b : ℕ) → (nat_eq a b ≡ true) ↔ (a ≡ b)
nat_eq_iff a b = (λ h. ground arith, λ h. ground arith)

pub Bool-cases : (b : Bool) → (b ≡ true) ⊎ (b ≡ false)
Bool-cases true = inl refl
Bool-cases false = inr refl

pub Option-cases {ℓ} : {A : Type ℓ} (o : Option A) → (o ≡ none) ⊎ ((a : A) × (o ≡ some a))
Option-cases none = inl refl
Option-cases (some a) = inr (a, refl)

-- `none` is a panic: an `unwrap` of nothing, a failed `assert` or an `unreachable`.
infixl 5 ◌>>=◌
abbrev pub ◌>>=◌ : {T R : Type 0} → Option T → (T → Option R) → Option R
some value >>= next = next value
none >>= next = none

-- A call that has not panicked, taken apart.
pub >>=-eq-some :
    {T R : Type 0} (call : Option T) (next : T → Option R) {r : R}
    → (call >>= next) ≡ some r
    → (value : T) × (call ≡ some value) × (next value ≡ some r)
>>=-eq-some (some value) next returned = (value, refl, returned)
>>=-eq-some none next returned = cc

-- Equality of the keys of a map.
pub record Key (K : Type 0) : Type 0 where
  pub beq : K → K → Bool
  pub beq_iff : (a b : K) → (beq a b ≡ true) ↔ (a ≡ b)

instance abbrev pub nat_key : Key ℕ
nat_key = record { beq = nat_eq; beq_iff = nat_eq_iff }

instance abbrev pub string_key : Key String
string_key = record { beq = str_eq; beq_iff = eq_iff }

-- `trunc_subsecs(6)` of nanoseconds.
abbrev pub whole_micros : ℕ → ℕ
whole_micros t = t - t % 1000
