-- ===== src/RateGuard/Guard/Waits.antt =====
-- ChatSendState and WaitTime of rateguard.go against TryAcquire: the probe and the hint agree with
-- what admission decides at the same clock reading.
use tg_session_gateway.Prelude.{
  ℤ, ◌≡◌, refl, ◌↔◌, inl, inr, Bool, true, false, not, ◌&&◌, some, arith, Bool-cases,
}
use tg_session_gateway.Float64.{Float64, ltf, fmax, fmax_le}
use tg_session_gateway.RateGuard.Method.{Text, write, method_kind}
use tg_session_gateway.RateGuard.Bucket.{Bucket, next_available}
use tg_session_gateway.RateGuard.Bucket.Laws.{RateIsOrdinary, try_take-next_available}
use tg_session_gateway.RateGuard.Bucket.Pause.{refill_paused}
use tg_session_gateway.RateGuard.Guard.{
  Guard, SendState, paused, empty, ok, chat_bucket, try_acquire, chat_state, chat_send_state,
  chat_wait, wait_kind, wait_time,
}
use tg_session_gateway.RateGuard.Guard.Laws.{
  admits, lane, admit_both, try_take-admits, try_acquire-admit_both,
}

module _ ⦃N : Float64⦄ where
  open N use {F, leb, zero, sub, leb_refl, leb_trans, sub_nonneg, sub_nonpos, sub_pos}

  admits-next_available :
      (b : Bucket F) (now : F)
      → RateIsOrdinary b.rate
      → leb (next_available b now).1 zero ≡ admits b now
  admits-next_available b now r =
      ground (arith, try_take-next_available b now r, try_take-admits b now)

  admit_both_verdict :
      (now : F) (chat : ℤ) (b : Bucket F) (g : Guard F)
      → (admit_both now chat b g).1 ≡ (admits b now && admits (lane g) now)
  unfolding admit_both
  admit_both_verdict now chat b g = ground arith

  -- Whether a write to the chat outside the paid lane is admitted.
  abbrev open_to : F → F → ℤ → Guard F → Bool
  open_to now created chat g =
      not (ltf now g.egress_paused_until)
      && (admits (chat_bucket created chat g) now && admits g.global_writes now)

  try_acquire_shut :
      (now created : F) (method : Text) (chat : ℤ) (g : Guard F)
      → ltf now g.egress_paused_until ≡ true
      → (try_acquire now created method (some chat) g).1 ≡ false
  unfolding try_acquire
  try_acquire_shut now created method chat g e = rw e

  try_acquire_verdict :
      (now created : F) (method : Text) (chat : ℤ) (g : Guard F)
      → method_kind method ≡ write
      → g.paid_lane ≡ false
      → (try_acquire now created method (some chat) g).1 ≡ open_to now created chat g
  try_acquire_verdict now created method chat g k p =
      elim (Bool-cases (ltf now g.egress_paused_until)) [
        | inl e ↦ rw (e, try_acquire_shut now created method chat g e) refl
        | inr e ↦
            rw
              (
                try_acquire-admit_both now created method chat g k e,
                e,
                admit_both_verdict now chat (chat_bucket created chat g) g,
                p,
              )
              refl
      ]

  admits_unpaused : (b : Bucket F) (now : F) → ltf now b.paused_until ≡ true → admits b now ≡ false
  admits_unpaused b now h = rw (refill_paused b now h, h)

  is_ok : SendState → Bool
  is_ok paused = false
  is_ok empty = false
  is_ok ok = true

  is_ok_iff : (s : SendState) → (is_ok s ≡ true) ↔ (s ≡ ok)
  unfolding is_ok
  is_ok_iff s = ground arith

  chat_bucket-global :
      (created : F) (chat : ℤ) (w : Bucket F) (g : Guard F)
      → chat_bucket created chat (record g { global_writes = w }) ≡ chat_bucket created chat g
  unfolding chat_bucket
  chat_bucket-global created chat w g = refl

  chat_send_state_verdict :
      (now created : F) (chat : ℤ) (g : Guard F)
      → RateIsOrdinary g.global_writes.rate
      → RateIsOrdinary (chat_bucket created chat g).rate
      → is_ok (chat_send_state now created (some chat) g).1 ≡ open_to now created chat g
  unfolding is_ok chat_send_state chat_state
  chat_send_state_verdict now created chat g r s =
      let b = chat_bucket created chat g in
      ground (
        arith,
        chat_bucket-global created chat (next_available g.global_writes now).0 g,
        admits-next_available g.global_writes now r,
        admits-next_available b now s,
        admits_unpaused b now,
        fmax_le (next_available g.global_writes now).1 (next_available b now).1 zero,
      )

  -- Outside the paid lane ChatSendState answers "ok" exactly when a write to the chat would be
  -- admitted at that moment. The rates of the global bucket and of the chat's must be ordinary:
  -- what is missing to one token, divided by the rate, must not underflow to 0.
  pub chat_send_state-try_acquire :
      (now created : F) (method : Text) (chat : ℤ) (g : Guard F)
      → method_kind method ≡ write
      → g.paid_lane ≡ false
      → RateIsOrdinary g.global_writes.rate
      → RateIsOrdinary (chat_bucket created chat g).rate
      → ((chat_send_state now created (some chat) g).1 ≡ ok)
        ↔ ((try_acquire now created method (some chat) g).1 ≡ true)
  chat_send_state-try_acquire now created method chat g k p r s = ground (
    arith,
    is_ok_iff (chat_send_state now created (some chat) g).1,
    chat_send_state_verdict now created chat g r s,
    try_acquire_verdict now created method chat g k p,
  )

  -- Outside the paid lane WaitTime answers at most 0 for a write to a chat exactly when that write
  -- would be admitted at that moment. The rates of the global bucket and of the chat's must be
  -- ordinary: what is missing to one token, divided by the rate, must not underflow to 0.
  pub wait_time-try_acquire :
      (now created : F) (method : Text) (chat : ℤ) (g : Guard F)
      → method_kind method ≡ write
      → g.paid_lane ≡ false
      → RateIsOrdinary g.global_writes.rate
      → RateIsOrdinary (chat_bucket created chat g).rate
      → (leb (wait_time now created method (some chat) g).1 zero ≡ true)
        ↔ ((try_acquire now created method (some chat) g).1 ≡ true)
  unfolding wait_time wait_kind chat_wait
  wait_time-try_acquire now created method chat g k p r s =
      let b = chat_bucket created chat g in
      let w = (next_available g.global_writes now).1 in
      let c = (next_available b now).1 in
      let e = sub g.egress_paused_until now in
      rw
        (
          k,
          chat_bucket-global created chat (next_available g.global_writes now).0 g,
          try_acquire_verdict now created method chat g k p,
        )
        (ground (
          arith,
          admits-next_available g.global_writes now r,
          admits-next_available b now s,
          sub_pos g.egress_paused_until now,
          sub_nonpos g.egress_paused_until now,
          leb_refl zero,
          fmax_le (fmax (fmax zero e) w) c zero,
          fmax_le (fmax zero e) w zero,
          fmax_le zero e zero,
        ))
