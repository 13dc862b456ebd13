-- ===== src/Service/Auth.antt =====
-- Who passes `AdminAuth` (service/src/lib.rs).
use Prim.Native.Nat.{bit_or, bit_xor}
use qscheduler.Base.{
  ℕ, ◌≡◌, ◌↔◌, refl, ◌∙◌, ap, inl, inr, true, Option, none, some, List, [], ◌∷◌, ◌++◌, length,
  nat_eq_iff, Option-cases, arith,
}
use qscheduler.Service.{differences, constant_time_eq, strip_prefix, bearer, admitted, admin_auth}
use qscheduler.Service.Bytes.{bit_xor_zero, bit_or_zero}

differences_zero :
    (acc : ℕ) (a b : List ℕ)
    → length a ≡ length b
    → (differences acc a b ≡ 0) ↔ ((acc ≡ 0) × (a ≡ b))
unfolding differences
differences_zero acc [] [] same = (λ h. (h, refl), λ h. h.0)
differences_zero acc [] (y ∷ b) same = absurd (omega (arith, same))
differences_zero acc (x ∷ a) [] same = absurd (omega (arith, same))
differences_zero acc (x ∷ a) (y ∷ b) same =
    let rest = differences_zero (bit_or acc (bit_xor x y)) a b (omega (arith, same)) in
    (
      λ h.
          let (folded, tails) = rest.0 h in
          let (none_before, none_here) = (bit_or_zero acc (bit_xor x y)).0 folded in
          (none_before, ground (arith, tails, (bit_xor_zero x y).0 none_here)),
      λ both.
          let heads : x ≡ y = ground (arith, both.1) in
          let tails : a ≡ b = ground (arith, both.1) in
          rest.1 ((bit_or_zero acc (bit_xor x y)).1 (both.0, (bit_xor_zero x y).1 heads), tails),
    )

constant_time_eq_iff : (a b : List ℕ) → (constant_time_eq a b ≡ true) ↔ (a ≡ b)
unfolding constant_time_eq
constant_time_eq_iff a b = (
  λ h.
      let same : length a ≡ length b = ground (arith, h, nat_eq_iff (length a) (length b)) in
      let folded : differences 0 a b ≡ 0 = ground (arith, h, nat_eq_iff (differences 0 a b) 0) in
      ((differences_zero 0 a b same).0 folded).1,
  λ same.
      let lengths : length a ≡ length b = ap length same in
      let folded : differences 0 a b ≡ 0 = (differences_zero 0 a b lengths).1 (refl, same) in
      ground (arith, lengths, folded),
)

strip_prefix_iff :
    (prefix text rest : List ℕ) → (strip_prefix prefix text ≡ some rest) ↔ (text ≡ prefix ++ rest)
unfolding strip_prefix
strip_prefix_iff [] text rest = (λ h. ground (arith, h), λ h. ground (arith, h))
strip_prefix_iff (p ∷ prefix) [] rest = (λ h. cc, λ h. ground (arith, h))
strip_prefix_iff (p ∷ prefix) (t ∷ text) rest =
    let inner = strip_prefix_iff prefix text rest in
    (λ h. ground (arith, h, inner, nat_eq_iff p t), λ h. ground (arith, h, inner, nat_eq_iff p t))

some_inj : (a b : List ℕ) → some a ≡ some b → a ≡ b
some_inj a b same = ground (arith, same)

-- An admin request passes exactly if a token is configured and the header is the text "Bearer "
-- followed by that token, byte for byte: the comparison by exclusive or accepts no other token and
-- no prefix of it.
pub admin_auth_iff :
    (admin_token authorization : Option (List ℕ))
    → (admin_auth admin_token authorization ≡ admitted) ↔ (
        (expected : List ℕ) × (admin_token ≡ some expected)
        × (authorization ≡ some (bearer ++ expected)))
unfolding admin_auth
admin_auth_iff none authorization = (λ h. cc, λ h. cc)
admin_auth_iff (some expected) none = (λ h. cc, λ h. cc)
admin_auth_iff (some expected) (some header) = elim (Option-cases (strip_prefix bearer header)) [
  | inl other ↦ (
    λ h. absurd (ground (arith, other, h)),
    λ (token, same, text).
        let here = (strip_prefix_iff bearer header token).1 (some_inj header _ text) in
        absurd (ground (arith, other, here)),
  )
  | inr (token, stripped) ↦ (
    λ h.
        let text = (strip_prefix_iff bearer header token).0 stripped in
        let same : token ≡ expected =
          ground (arith, h, stripped, constant_time_eq_iff token expected) in
        (expected, refl, ap some (text ∙ ap (λ t. bearer ++ t) same)),
    λ (token', same', text).
        let here = (strip_prefix_iff bearer header token').1 (some_inj header _ text) in
        let given : token ≡ expected = ground (arith, stripped, here, same') in
        ground (arith, stripped, (constant_time_eq_iff token expected).1 given),
  )
]
