-- ===== src/Float64/Scaled.antt =====
-- Integers meet the interface: they are the finite values without a fraction.
use tg_session_gateway.Prelude.{
  ℤ, pos, negsuc, ◌+ℤ◌, ◌-ℤ◌, leb_ℤ, pos_part, neg_part, sub_ℕ, ℕ, ◌+◌, ◌*◌, ◌/◌, ◌≡◌, refl, ◌⊎◌,
  true, false, arith,
}
use tg_session_gateway.Float64.Defs.{Float64}

unfoldable pub mul_ℤ : ℤ → ℤ → ℤ
mul_ℤ a b =
    sub_ℕ (pos_part a * pos_part b + neg_part a * neg_part b)
      (pos_part a * neg_part b + neg_part a * pos_part b)

-- Towards zero, as a float that is rounded to an integer.
unfoldable pub div_ℤ : ℤ → ℤ → ℤ
div_ℤ (pos a) (pos b) = pos (a / b)
div_ℤ (pos a) (negsuc b) = sub_ℕ 0 (a / (b + 1))
div_ℤ (negsuc a) (pos b) = sub_ℕ 0 ((a + 1) / b)
div_ℤ (negsuc a) (negsuc b) = pos ((a + 1) / (b + 1))

unfoldable pub pow_ℕ : ℤ → ℕ → ℤ
pow_ℕ a ℕ.zero = pos 1
pow_ℕ a (ℕ.suc n) = mul_ℤ a (pow_ℕ a n)

pub leb_ℤ_refl : (a : ℤ) → leb_ℤ a a ≡ true
leb_ℤ_refl a = ground arith

pub leb_ℤ_total : (a b : ℤ) → (leb_ℤ a b ≡ true) ⊎ (leb_ℤ b a ≡ true)
leb_ℤ_total a b = ground arith

pub leb_ℤ_trans : (a b c : ℤ) → leb_ℤ a b ≡ true → leb_ℤ b c ≡ true → leb_ℤ a c ≡ true
leb_ℤ_trans a b c h k = ground arith

pub add_zero_ℤ : (a : ℤ) → a +ℤ pos 0 ≡ a
unfolding ◌+ℤ◌
add_zero_ℤ a = ground arith

pub sub_self_ℤ : (a : ℤ) → a -ℤ a ≡ pos 0
unfolding ◌-ℤ◌
sub_self_ℤ a = ground arith

pub mul_zero_ℤ : (a : ℤ) → mul_ℤ (pos 0) a ≡ pos 0
unfolding mul_ℤ
mul_zero_ℤ a = ground arith

pub add_nonneg_ℤ : (a b : ℤ) → leb_ℤ (pos 0) b ≡ true → leb_ℤ a (a +ℤ b) ≡ true
unfolding ◌+ℤ◌
add_nonneg_ℤ a b h = ground arith

pub add_le_ℤ : (a b c d : ℤ) → leb_ℤ a b ≡ true → leb_ℤ c d ≡ true → leb_ℤ (a +ℤ c) (b +ℤ d) ≡ true
unfolding ◌+ℤ◌
add_le_ℤ a b c d h k = ground arith

pub sub_mono_ℤ : (a b c : ℤ) → leb_ℤ a b ≡ true → leb_ℤ (a -ℤ c) (b -ℤ c) ≡ true
unfolding ◌-ℤ◌
sub_mono_ℤ a b c h = ground arith

pub mul_nonneg_ℤ :
    (a b : ℤ) → leb_ℤ (pos 0) a ≡ true → leb_ℤ (pos 0) b ≡ true → leb_ℤ (pos 0) (mul_ℤ a b) ≡ true
unfolding mul_ℤ
mul_nonneg_ℤ a b h k = ground arith

pub sub_nonneg_ℤ : (a b : ℤ) → leb_ℤ b a ≡ true → leb_ℤ (pos 0) (a -ℤ b) ≡ true
unfolding ◌-ℤ◌
sub_nonneg_ℤ a b h = ground arith

pub sub_nonpos_ℤ : (a b : ℤ) → leb_ℤ a b ≡ true → leb_ℤ (a -ℤ b) (pos 0) ≡ true
unfolding ◌-ℤ◌
sub_nonpos_ℤ a b h = ground arith

pub sub_pos_ℤ : (a b : ℤ) → leb_ℤ a b ≡ false → leb_ℤ (a -ℤ b) (pos 0) ≡ false
unfolding ◌-ℤ◌
sub_pos_ℤ a b h = ground arith

pub sub_le_ℤ : (a b : ℤ) → leb_ℤ (pos 0) b ≡ true → leb_ℤ (a -ℤ b) a ≡ true
unfolding ◌-ℤ◌
sub_le_ℤ a b h = ground arith

instance abbrev pub integral : Float64
integral = record {
  F = ℤ;
  leb = leb_ℤ;
  zero = pos 0;
  add = ◌+ℤ◌;
  sub = ◌-ℤ◌;
  mul = mul_ℤ;
  div = div_ℤ;
  pow = λ a b. pow_ℕ a (pos_part b);
  of_int = λ n. n;
  to_int = λ a. a;
  leb_refl = leb_ℤ_refl;
  leb_trans = leb_ℤ_trans;
  leb_total = leb_ℤ_total;
  zero_le_one = refl;
  of_int_le = λ a b h. h;
  add-zero = add_zero_ℤ;
  sub_self = sub_self_ℤ;
  mul-zero_left = mul_zero_ℤ;
  add_le = add_le_ℤ;
  sub_mono = sub_mono_ℤ;
  add_nonneg = add_nonneg_ℤ;
  mul_nonneg = mul_nonneg_ℤ;
  sub_nonneg = sub_nonneg_ℤ;
  sub_nonpos = sub_nonpos_ℤ;
  sub_pos = sub_pos_ℤ;
  sub_le = sub_le_ℤ;
}
