-- ===== src/Service/Bytes.antt =====
-- Comparing bytes (service/src/lib.rs).
use Prim.Native.Nat.{bit_or, bit_xor, digits, differ, bit_or-bitwise, bit_xor-bitwise, ◌/◌}
use qscheduler.Base.{ℕ, zero, suc, ◌%◌, ◌≤◌, ◌≡◌, ◌↔◌, refl, sym, ◌∙◌, subst, ap, max, arith}

differ-zero : (x y : ℕ) → differ x y ≡ 0 → x ≡ y
differ-zero zero y same = sym same
differ-zero (suc x) zero same = absurd (omega (arith, same))
differ-zero (suc x) (suc y) same = ap suc (differ-zero x y same)

differ-same : (x : ℕ) → differ x x ≡ 0
differ-same zero = refl
differ-same (suc x) = differ-same x

digits-differ_zero : (n a b : ℕ) → a ≤ n → digits (λ b. b) differ n a b ≡ 0 → a ≡ b
digits-differ_zero zero a b small same = omega (arith, small, same)
digits-differ_zero (suc n) zero b small same = omega (arith, same)
digits-differ_zero (suc n) (suc a) b small same =
    let halves : suc a / 2 ≡ b / 2 =
      digits-differ_zero n (suc a / 2) (b / 2) (omega (arith, small)) (omega (arith, same)) in
    let lasts : suc a % 2 ≡ b % 2 = differ-zero (suc a % 2) (b % 2) (omega (arith, same)) in
    omega (arith, halves, lasts)

digits-differ_same : (n a : ℕ) → a ≤ n → digits (λ b. b) differ n a a ≡ 0
digits-differ_same zero a small = omega (arith, small)
digits-differ_same (suc n) zero small = refl
digits-differ_same (suc n) (suc a) small =
    omega (arith, digits-differ_same n (suc a / 2) (omega (arith, small)), differ-same (suc a % 2))

digits-max_zero : (n a b : ℕ) → a ≤ n → digits (λ b. b) max n a b ≡ 0 → (a ≡ 0) × (b ≡ 0)
digits-max_zero zero a b small same = (omega (arith, small), same)
digits-max_zero (suc n) zero b small same = (refl, same)
digits-max_zero (suc n) (suc a) b small same =
    let (halves, halves') =
      digits-max_zero n (suc a / 2) (b / 2) (omega (arith, small)) (omega (arith, same)) in
    (omega (arith, halves, same), omega (arith, halves', same))

pub bit_xor_zero : (a b : ℕ) → (bit_xor a b ≡ 0) ↔ (a ≡ b)
bit_xor_zero a b = (
  λ same. digits-differ_zero a a b (omega arith) (sym (λ i. bit_xor-bitwise a b i) ∙ same),
  λ same.
      (λ i. bit_xor-bitwise a b i)
      ∙ subst (λ c. digits (λ b. b) differ a a c ≡ 0) same (digits-differ_same a a (omega arith)),
)

pub bit_or_zero : (a b : ℕ) → (bit_or a b ≡ 0) ↔ ((a ≡ 0) × (b ≡ 0))
bit_or_zero a b = (
  λ same. digits-max_zero a a b (omega arith) (sym (λ i. bit_or-bitwise a b i) ∙ same),
  λ both. rw (both.0, both.1) (λ i. bit_or-bitwise 0 0 i),
)
