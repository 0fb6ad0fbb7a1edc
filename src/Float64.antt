-- ===== src/Float64.antt =====
-- The floating point numbers that the gateway computes with (Go's float64: tokens, rates, seconds
-- and clock readings), as an interface: the operations, and the facts about IEEE 754 arithmetic on
-- finite values that the proofs rely on. Values that compare equal are one value, so the two zeros
-- are. Rounding is left open: no law says that a sum or a product is exact, but where one of the
-- operands is 0.
mod Defs
pub mod Scaled
pub use Defs.{Float64}
pub use Scaled.{integral}
use tg_session_gateway.Prelude.{
  ◌≡◌, refl, sym, Bool, true, false, not, ◌&&◌, arith, if◌then◌else◌, ◌⊎◌, inl, inr, Bool-cases,
}

module _ ⦃N : Float64⦄ where
  open N use {F, leb, zero, leb_refl, leb_total, leb_trans}

  -- `a < b`, `a == b`, `math.Max`, `math.Min` on numbers that are not NaN.
  abbrev pub ltf : F → F → Bool
  ltf a b = not (leb b a)

  abbrev pub eqf : F → F → Bool
  eqf a b = leb a b && leb b a

  abbrev pub fmax : F → F → F
  fmax a b = if leb a b then b else a

  abbrev pub fmin : F → F → F
  fmin a b = if leb a b then a else b

  pub fmin-le_left : (a b : F) → leb (fmin a b) a ≡ true
  fmin-le_left a b = ground (arith, leb_refl a, leb_total a b)

  pub fmin-le_right : (a b : F) → leb (fmin a b) b ≡ true
  fmin-le_right a b = ground (arith, leb_refl b)

  pub le-fmax_left : (a b : F) → leb a (fmax a b) ≡ true
  le-fmax_left a b = ground (arith, leb_refl a)

  pub le-fmax_right : (a b : F) → leb b (fmax a b) ≡ true
  le-fmax_right a b = ground (arith, leb_refl b, leb_total a b)

  pub ltf_of_ltf_of_le : (a b c : F) → ltf a b ≡ true → leb b c ≡ true → ltf a c ≡ true
  ltf_of_ltf_of_le a b c h k = ground (arith, leb_trans b c a)

  -- A bound holds of a maximum exactly when it holds of both.
  pub fmax_le : (a b c : F) → leb (fmax a b) c ≡ (leb a c && leb b c)
  fmax_le a b c = ground (arith, leb_total a b, leb_trans a b c, leb_trans b a c)
