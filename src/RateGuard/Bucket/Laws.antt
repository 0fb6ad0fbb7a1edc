-- ===== src/RateGuard/Bucket/Laws.antt =====
-- Bounds of a bucket, and what the operations agree on.
use tg_session_gateway.Prelude.{ℤ, ◌≡◌, ap, ◌∙◌, ◌↔◌, Bool, true, false, not, ◌&&◌, arith}
use tg_session_gateway.Float64.{Float64, ltf, eqf, fmin-le_left}
use tg_session_gateway.RateGuard.Bucket.{
  Bucket, one, new_bucket, unpause, accrue, refill, try_take, next_available, pause,
}

module _ ⦃N : Float64⦄ where
  open N use {
    F, leb, zero, add, sub, mul, div, of_int, leb_refl, leb_trans, leb_total, zero_le_one, add-zero,
    sub_self, mul-zero_left, add_nonneg, mul_nonneg, sub_nonneg, sub_pos, sub_nonpos, sub_le,
  }

  -- Tokens between 0 and the capacity, which holds one token at least.
  pub record IsValid (b : Bucket F) : Type 0 where
    pub rate_nonneg : leb zero b.rate ≡ true
    pub room : leb one (of_int b.capacity) ≡ true
    pub tokens_nonneg : leb zero b.tokens ≡ true
    pub tokens_capped : leb b.tokens (of_int b.capacity) ≡ true

  pub new_bucket-IsValid :
      (rate : F) (capacity : ℤ) (now : F)
      → leb zero rate ≡ true
      → leb one (of_int capacity) ≡ true
      → IsValid (new_bucket rate capacity now)
  unfolding new_bucket
  new_bucket-IsValid rate capacity now h k = record {
    rate_nonneg = h;
    room = k;
    tokens_nonneg = leb_trans zero one (of_int capacity) zero_le_one k;
    tokens_capped = leb_refl (of_int capacity);
  }

  unpause-IsValid : (b : Bucket F) (now : F) → IsValid b → IsValid (unpause b now)
  unfolding unpause
  unpause-IsValid b now v = ground (arith, v, zero_le_one)

  unpause_updated : (b : Bucket F) (now : F) → (unpause b now).updated ≡ b.updated
  unfolding unpause
  unpause_updated b now = ground arith

  -- If the clock has not gone back, a refill keeps the bounds.
  pub refill-IsValid :
      (b : Bucket F) (now : F) → leb b.updated now ≡ true → IsValid b → IsValid (refill b now)
  unfolding refill accrue
  refill-IsValid b now fresh v = record {
    rate_nonneg = w.rate_nonneg;
    room = w.room;
    tokens_nonneg = ground (arith, gain, leb_trans zero one cap zero_le_one w.room);
    tokens_capped = fmin-le_left cap (add u.tokens earned);
  }
    where
      u : Bucket F
      u = unpause b now

      w : IsValid u
      w = unpause-IsValid b now v

      cap : F
      cap = of_int u.capacity

      earned : F
      earned = mul (sub now u.updated) u.rate

      earned_nonneg : leb zero earned ≡ true
      earned_nonneg =
          mul_nonneg _ _ (sub_nonneg _ _ (rw (unpause_updated b now) fresh)) w.rate_nonneg

      gain : leb zero (add u.tokens earned) ≡ true
      gain = leb_trans _ _ _ w.tokens_nonneg (add_nonneg u.tokens earned earned_nonneg)

  -- The test of `unpause`: there was a pause, and it is over.
  abbrev is_over : Bucket F → F → Bool
  is_over b now = not (eqf b.paused_until zero) && leb b.paused_until now

  unpause_idle : (b : Bucket F) (now : F) → is_over b now ≡ false → unpause b now ≡ b
  unfolding unpause
  unpause_idle b now h = rw h

  not-is_over-unpause : (b : Bucket F) (now : F) → is_over (unpause b now) now ≡ false
  unfolding unpause
  not-is_over-unpause b now = ground (arith, leb_refl zero)

  accrue-accrue : (b : Bucket F) (now : F) → accrue (accrue b now) now ≡ accrue b now
  unfolding accrue
  accrue-accrue b now =
      rw (sub_self now, mul-zero_left b.rate, add-zero)
        (ground (
          arith,
          fmin-le_left (of_int b.capacity) (add b.tokens (mul (sub now b.updated) b.rate)),
          leb_refl (of_int b.capacity),
        ))

  unpause_accrued :
      (b : Bucket F) (now : F)
      → unpause (accrue (unpause b now) now) now ≡ accrue (unpause b now) now
  unfolding accrue
  unpause_accrued b now = unpause_idle (accrue (unpause b now) now) now (not-is_over-unpause b now)

  -- A second refill at the same clock reading changes nothing.
  pub refill-refill : (b : Bucket F) (now : F) → refill (refill b now) now ≡ refill b now
  unfolding refill
  refill-refill b now =
      ap (λ c. accrue c now) (unpause_accrued b now) ∙ accrue-accrue (unpause b now) now

  -- A take from a valid bucket, at a clock reading that is not before its last refill, leaves it
  -- valid, whether it succeeds or not: its tokens are between 0 and the capacity, the capacity is at
  -- least 1, and the rate is not negative.
  pub try_take-IsValid :
      (b : Bucket F) (now : F) → leb b.updated now ≡ true → IsValid b → IsValid (try_take b now).0
  unfolding try_take
  try_take-IsValid b now fresh v = ground (
    arith,
    refill-IsValid b now fresh v,
    sub_nonneg (refill b now).tokens one,
    sub_le (refill b now).tokens one zero_le_one,
    leb_trans (sub (refill b now).tokens one) (refill b now).tokens
        (of_int (refill b now).capacity),
  )

  pub pause-IsValid : (s now : F) (b : Bucket F) → IsValid b → IsValid (pause s now b)
  unfolding pause
  pause-IsValid s now b v =
      ground (arith, v, leb_refl zero, leb_trans zero one (of_int b.capacity) zero_le_one)

  -- What is missing to one token, divided by the rate, does not underflow: a float64 below 1 is at
  -- least 2^-53 below it, so this holds of every positive rate up to 2^1000.
  abbrev pub RateIsOrdinary : F → Type 0
  RateIsOrdinary r = (t : F) → ltf t one ≡ true → ltf zero (div (sub one t) r) ≡ true

  refill_rate : (b : Bucket F) (now : F) → (refill b now).rate ≡ b.rate
  unfolding refill accrue unpause
  refill_rate b now = ground arith

  -- The wait that a bucket reports is 0 exactly when a take would succeed.
  pub try_take-next_available :
      (b : Bucket F) (now : F)
      → RateIsOrdinary b.rate
      → ((try_take b now).1 ≡ true) ↔ (leb (next_available b now).1 zero ≡ true)
  unfolding try_take next_available
  try_take-next_available b now ordinary = ground (
    arith,
    refill_rate b now,
    ordinary (refill b now).tokens,
    sub_pos (refill b now).paused_until now,
    sub_pos one (refill b now).tokens,
    sub_nonpos one (refill b now).tokens,
    leb_refl zero,
  )
