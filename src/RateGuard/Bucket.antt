-- ===== src/RateGuard/Bucket.antt =====
-- The token bucket of internal/rateguard/rateguard.go. Its methods change it in place there, and
-- return the new bucket here.
pub mod Laws
pub mod Pause
use tg_session_gateway.Prelude.{ℤ, pos, Bool, true, false, not, ◌&&◌, ◌||◌, if◌then◌else◌}
use tg_session_gateway.Float64.{Float64, ltf, eqf, fmax, fmin}

pub record Bucket (F : Type 0) : Type 0 where
  pub rate : F
  pub capacity : ℤ
  pub tokens : F
  pub updated : F
  pub paused_until : F

module _ ⦃N : Float64⦄ where
  open N use {F, leb, zero, add, sub, mul, div, of_int}

  abbrev pub one : F
  one = of_int (pos 1)

  -- NewBucket at the clock reading `now`.
  unfoldable pub new_bucket : F → ℤ → F → Bucket F
  new_bucket rate capacity now = record {
    rate = rate;
    capacity = capacity;
    tokens = of_int capacity;
    updated = now;
    paused_until = zero;
  }

  -- The first branch of Refill: a pause that is over ends, and leaves one token at least.
  unfoldable pub unpause : Bucket F → F → Bucket F
  unpause b now =
      if not (eqf b.paused_until zero) && leb b.paused_until now
      then record b { paused_until = zero; tokens = fmax b.tokens one }
      else b

  -- The rest of Refill: what has been earned since the last refill, up to the capacity.
  unfoldable pub accrue : Bucket F → F → Bucket F
  accrue b now = record b {
    tokens = fmin (of_int b.capacity) (add b.tokens (mul (sub now b.updated) b.rate));
    updated = now;
  }

  unfoldable pub refill : Bucket F → F → Bucket F
  refill b now = accrue (unpause b now) now

  -- The test `PausedUntil > now || Tokens < 1` of the guards.
  abbrev pub is_blocked : Bucket F → F → Bool
  is_blocked b now = ltf now b.paused_until || ltf b.tokens one

  abbrev pub spend : Bucket F → Bucket F
  spend b = record b { tokens = sub b.tokens one }

  abbrev pub refund : Bucket F → Bucket F
  refund b = record b { tokens = add b.tokens one }

  unfoldable pub try_take : Bucket F → F → Bucket F × Bool
  try_take b now =
      let r = refill b now in
      if ltf now r.paused_until
      then (r, false)
      else if leb one r.tokens
      then (spend r, true)
      else (r, false)

  unfoldable pub next_available : Bucket F → F → Bucket F × F
  next_available b now =
      let r = refill b now in
      if ltf now r.paused_until
      then (r, sub r.paused_until now)
      else let deficit = sub one r.tokens in
        if ltf zero deficit then (r, div deficit r.rate) else (r, zero)

  -- Pause(seconds, now).
  unfoldable pub pause : F → F → Bucket F → Bucket F
  pause seconds now b = record b {
    paused_until = fmax b.paused_until (add now seconds);
    tokens = zero;
  }

  -- Jittered, with what rand.Float64 drew.
  unfoldable pub jittered : F → F → F → F
  jittered base cap_extra drawn =
      add base (mul drawn (fmin cap_extra (mul base (div one (of_int (pos 10))))))
