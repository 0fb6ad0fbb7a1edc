-- ===== src/RateGuard/Guard/Blocks/Runs.antt =====
-- A pause of a chat in rateguard.go through any operations of the guard, before the pause is over.
use tg_session_gateway.Prelude.{
  ℤ, ◌≡◌, refl, sym, subst, Bool, true, Bool-cases, inl, inr, Option, none, some, List, [], ◌∷◌,
  All, string_has_eq, int_has_eq, ◌=?◌, eq_ℤ_iff, if_both, if◌then◌else◌,
}
use tg_session_gateway.Float64.{Float64, ltf, fmax, ltf_of_ltf_of_le}
use tg_session_gateway.RateGuard.Method.{Kind, fast, read, write, method_kind}
use tg_session_gateway.RateGuard.Bucket.{Bucket, next_available}
use tg_session_gateway.RateGuard.Bucket.Pause.{refill_paused}
use tg_session_gateway.RateGuard.Guard.{
  Guard, set_chat, chat_bucket, report_429, restore_backoff, chat_wait, wait_kind, wait_time,
  chat_state, chat_send_state, enter_paid_lane, exit_paid_lane, SendState, paused, empty, ok,
}
use tg_session_gateway.RateGuard.Guard.Blocks.{
  chat_bucket-lookup_chat, lookup_chat-set_chat, IsPaused, IsPaused-tables, Call, call, call_keeps,
}
use tg_session_gateway.RateGuard.Guard.Blocks.Asleep.{next_available-refill}
use tg_session_gateway.RateGuard.Guard.Blocks.Again.{report_429-keeps, restore_backoff-keeps}

module _ ⦃N : Float64⦄ where
  open N use {F, leb, zero, sub}

  -- The operations of the guard, with their clock readings.
  pub data GuardOp : Type 0 where
    -- TryAcquire and WaitTime
    tried : Call F → GuardOp
    waited : Call F → GuardOp
    -- ChatSendState
    probed : F → F → Option ℤ → GuardOp
    -- Report429 and RestoreBackoff
    reported : F → F → Option ℤ → F → GuardOp
    restored : F → F → Option ℤ → F → GuardOp
    -- EnterPaidLane and ExitPaidLane
    entered : Bool → GuardOp
    left : GuardOp

  unfoldable pub guard_step : GuardOp → Guard F → Guard F
  guard_step (tried c) g = (call c g).0
  guard_step (waited c) g = (wait_time c.now c.created c.method c.chat g).0
  guard_step (probed now created chat) g = (chat_send_state now created chat g).0
  guard_step (reported now created chat retry) g = report_429 now created chat retry g
  guard_step (restored now created chat remaining) g = restore_backoff now created chat remaining g
  guard_step (entered allowed) g = enter_paid_lane allowed g
  guard_step left g = exit_paid_lane g

  unfoldable pub guard_run : List GuardOp → Guard F → Guard F
  guard_run [] g = g
  guard_run (op ∷ ops) g = guard_run ops (guard_step op g)

  -- What may refill a bucket reads the clock before this time.
  abbrev pub Early : F → GuardOp → Type 0
  Early until (tried c) = ltf c.now until ≡ true
  Early until (waited c) = ltf c.now until ≡ true
  Early until (probed now created chat) = ltf now until ≡ true
  Early until (reported now created chat retry) = Unit
  Early until (restored now created chat remaining) = Unit
  Early until (entered allowed) = Unit
  Early until left = Unit

  set_chat-IsPaused :
      (until : F) (chat j : ℤ) (b : Bucket F) (g : Guard F)
      → ((j =? chat) ≡ true → leb until b.paused_until ≡ true)
      → IsPaused until chat g
      → IsPaused until chat (set_chat j b g)
  unfolding IsPaused
  set_chat-IsPaused until chat j b g h (x, at, late) = elim (Bool-cases (j =? chat)) [
    | inl same ↦ (b, rw (lookup_chat-set_chat j chat b g, same) refl, h same)
    | inr other ↦ (x, rw (lookup_chat-set_chat j chat b g, other) at, late)
  ]

  -- The bucket of a chat, as it is or refilled, keeps the pause.
  chat_bucket_late :
      (until : F) (chat j : ℤ) (created : F) (g : Guard F)
      → IsPaused until chat g
      → (j =? chat) ≡ true
      → leb until (chat_bucket created j g).paused_until ≡ true
  unfolding IsPaused
  chat_bucket_late until chat j created g (x, at, late) same =
      subst (λ k. leb until (chat_bucket created k g).paused_until ≡ true)
        (sym ((eq_ℤ_iff j chat).0 same)) (rw (chat_bucket-lookup_chat created chat g x at) late)

  next_available_late :
      (until now : F) (b : Bucket F)
      → ltf now until ≡ true
      → leb until b.paused_until ≡ true
      → leb until (next_available b now).0.paused_until ≡ true
  next_available_late until now b h k =
      rw
        (
          next_available-refill b now,
          refill_paused b now (ltf_of_ltf_of_le now until b.paused_until h k),
        )
        k

  asked-IsPaused :
      (until now : F) (chat j : ℤ) (created : F) (g : Guard F)
      → ltf now until ≡ true
      → IsPaused until chat g
      → IsPaused until chat (set_chat j (next_available (chat_bucket created j g) now).0 g)
  asked-IsPaused until now chat j created g h p =
      set_chat-IsPaused until chat j _ g
        (λ same.
          next_available_late until now (chat_bucket created j g) h
            (chat_bucket_late until chat j created g p same))
        p

  chat_wait-IsPaused :
      (until : F) (chat : ℤ) (now created : F) (target : Option ℤ) (g : Guard F)
      → ltf now until ≡ true
      → IsPaused until chat g
      → IsPaused until chat (chat_wait now created target g).0
  unfolding chat_wait
  chat_wait-IsPaused until chat now created none g h p = p
  chat_wait-IsPaused until chat now created (some j) g h p =
      asked-IsPaused until now chat j created g h p

  wait_kind-IsPaused :
      (kind : Kind) (until : F) (chat : ℤ) (now created : F) (target : Option ℤ) (g : Guard F)
      (wait : F)
      → ltf now until ≡ true
      → IsPaused until chat g
      → IsPaused until chat (wait_kind kind now created target g wait).0
  unfolding wait_kind
  wait_kind-IsPaused fast until chat now created target g wait h p = p
  wait_kind-IsPaused read until chat now created target g wait h p =
      IsPaused-tables until chat g _ refl refl p
  wait_kind-IsPaused write until chat now created none g wait h p =
      IsPaused-tables until chat g _ refl refl p
  wait_kind-IsPaused write until chat now created (some j) g wait h p =
      let g' = record g { global_writes = (next_available g.global_writes now).0 } in
      chat_wait-IsPaused until chat now created (some j) g' h
        (IsPaused-tables until chat g g' refl refl p)

  chat_state-IsPaused :
      (until : F) (chat : ℤ) (now created : F) (target : Option ℤ) (wait : F) (g : Guard F)
      → ltf now until ≡ true
      → IsPaused until chat g
      → IsPaused until chat (chat_state now created target wait g).0
  unfolding chat_state
  chat_state-IsPaused until chat now created none wait g h p = p
  chat_state-IsPaused until chat now created (some j) wait g h p =
      let b = chat_bucket created j g in
      let b' = (next_available b now).0 in
      if_both {A = Guard F × SendState} (λ r. IsPaused until chat r.0) (ltf now b.paused_until)
        (set_chat j b g, paused)
        (set_chat j b' g, if ltf zero (fmax wait (next_available b now).1) then empty else ok)
        (set_chat-IsPaused until chat j b g (chat_bucket_late until chat j created g p) p)
        (asked-IsPaused until now chat j created g h p)

  chat_send_state-IsPaused :
      (until : F) (chat : ℤ) (now created : F) (target : Option ℤ) (g : Guard F)
      → ltf now until ≡ true
      → IsPaused until chat g
      → IsPaused until chat (chat_send_state now created target g).0
  unfolding chat_send_state
  chat_send_state-IsPaused until chat now created target g h p =
      let g' = record g { global_writes = (next_available g.global_writes now).0 } in
      let wait = (next_available g.global_writes now).1 in
      if_both {A = Guard F × SendState} (λ r. IsPaused until chat r.0)
        (ltf now g.egress_paused_until) (g, paused) (chat_state now created target wait g') p
        (chat_state-IsPaused until chat now created target wait g' h
          (IsPaused-tables until chat g g' refl refl p))

  guard_step-IsPaused :
      (until : F) (chat : ℤ) (op : GuardOp) (g : Guard F)
      → Early until op
      → IsPaused until chat g
      → IsPaused until chat (guard_step op g)
  unfolding guard_step wait_time enter_paid_lane exit_paid_lane
  guard_step-IsPaused until chat (tried c) g h p = call_keeps until chat c g h p
  guard_step-IsPaused until chat (waited c) g h p =
      wait_kind-IsPaused (method_kind c.method) until chat c.now c.created c.chat g _ h p
  guard_step-IsPaused until chat (probed now created target) g h p =
      chat_send_state-IsPaused until chat now created target g h p
  guard_step-IsPaused until chat (reported now created target retry) g h p =
      report_429-keeps until chat target now created retry g p
  guard_step-IsPaused until chat (restored now created target remaining) g h p =
      restore_backoff-keeps until chat target now created remaining g p
  guard_step-IsPaused until chat (entered allowed) g h p =
      IsPaused-tables until chat g _ refl refl p
  guard_step-IsPaused until chat left g h p = IsPaused-tables until chat g _ refl refl p

  -- A pause is there after any operations of the guard before it is over.
  pub guard_run-IsPaused :
      (until : F) (chat : ℤ) (ops : List GuardOp) (g : Guard F)
      → All (Early until) ops
      → IsPaused until chat g
      → IsPaused until chat (guard_run ops g)
  unfolding guard_run
  guard_run-IsPaused until chat [] g h p = p
  guard_run-IsPaused until chat (op ∷ ops) g h p =
      guard_run-IsPaused until chat ops (guard_step op g) h.1
        (guard_step-IsPaused until chat op g h.0 p)
