-- ===== src/Float64/Defs.antt =====
-- The interface itself.
use tg_session_gateway.Prelude.{ℤ, pos, leb_ℤ, ◌≡◌, ◌⊎◌, Bool, true, false}

pub record Float64 : Type 1 where
  pub F : Type 0
  pub leb : F → F → Bool
  pub zero : F
  pub add : F → F → F
  pub sub : F → F → F
  pub mul : F → F → F
  pub div : F → F → F
  pub pow : F → F → F
  pub of_int : ℤ → F
  pub to_int : F → ℤ
  -- The order of the numbers that are not NaN.
  pub leb_refl : (a : F) → leb a a ≡ true
  pub leb_trans : (a b c : F) → leb a b ≡ true → leb b c ≡ true → leb a c ≡ true
  pub leb_total : (a b : F) → (leb a b ≡ true) ⊎ (leb b a ≡ true)
  pub zero_le_one : leb zero (of_int (pos 1)) ≡ true
  pub of_int_le : (a b : ℤ) → leb_ℤ a b ≡ true → leb (of_int a) (of_int b) ≡ true
  -- Exact results.
  pub add-zero : (a : F) → add a zero ≡ a
  pub sub_self : (a : F) → sub a a ≡ zero
  pub mul-zero_left : (a : F) → mul zero a ≡ zero
  -- Rounding keeps signs and the order.
  pub add_le : (a b c d : F) → leb a b ≡ true → leb c d ≡ true → leb (add a c) (add b d) ≡ true
  pub add_nonneg : (a b : F) → leb zero b ≡ true → leb a (add a b) ≡ true
  pub sub_mono : (a b c : F) → leb a b ≡ true → leb (sub a c) (sub b c) ≡ true
  pub mul_nonneg : (a b : F) → leb zero a ≡ true → leb zero b ≡ true → leb zero (mul a b) ≡ true
  pub sub_nonneg : (a b : F) → leb b a ≡ true → leb zero (sub a b) ≡ true
  pub sub_nonpos : (a b : F) → leb a b ≡ true → leb (sub a b) zero ≡ true
  pub sub_pos : (a b : F) → leb a b ≡ false → leb (sub a b) zero ≡ false
  pub sub_le : (a b : F) → leb zero b ≡ true → leb (sub a b) a ≡ true
