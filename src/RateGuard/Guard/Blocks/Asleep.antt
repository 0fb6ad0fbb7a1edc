-- ===== src/RateGuard/Guard/Blocks/Asleep.antt =====
-- WaitTime of rateguard.go leaves a pause as it is: a call that is refused and asks how long to
-- wait, as the proxy's admission does, is refused again until the pause is over.
use tg_session_gateway.Prelude.{
  ℤ, ◌≡◌, refl, true, false, some, List, string_has_eq, int_has_eq, =?_refl, arith,
}
use tg_session_gateway.Float64.{Float64, ltf, fmax, ltf_of_ltf_of_le}
use tg_session_gateway.RateGuard.Method.{Text, Kind, fast, read, write, method_kind}
use tg_session_gateway.RateGuard.Bucket.{Bucket, refill, next_available}
use tg_session_gateway.RateGuard.Bucket.Pause.{refill_paused}
use tg_session_gateway.RateGuard.Guard.{
  Guard, try_acquire, report_429, chat_wait, wait_kind, wait_time,
}
use tg_session_gateway.RateGuard.Guard.Blocks.{
  chat_bucket-lookup_chat, lookup_chat-set_chat, IsPaused, IsPaused-tables, Call, call, call_keeps,
  call_refused, AllBefore, after, report-IsPaused, after_keeps,
}

module _ ⦃N : Float64⦄ where
  open N use {F, leb, zero, add, sub}

  pub next_available-refill : (b : Bucket F) (now : F) → (next_available b now).0 ≡ refill b now
  unfolding next_available
  next_available-refill b now = ground arith

  chat_wait-IsPaused :
      (until : F) (chat : ℤ) (now created : F) (g : Guard F)
      → ltf now until ≡ true
      → IsPaused until chat g
      → IsPaused until chat (chat_wait now created (some chat) g).0
  unfolding chat_wait IsPaused
  chat_wait-IsPaused until chat now created g h (b, at, late) =
      let k = ltf_of_ltf_of_le now until b.paused_until h late in
      rw (chat_bucket-lookup_chat created chat g b at, next_available-refill b now)
        (
          refill b now,
          rw (lookup_chat-set_chat chat chat (refill b now) g, =?_refl chat),
          rw (refill_paused b now k) late,
        )

  wait_kind-IsPaused :
      (kind : Kind) (until : F) (chat : ℤ) (now created : F) (g : Guard F) (wait : F)
      → ltf now until ≡ true
      → IsPaused until chat g
      → IsPaused until chat (wait_kind kind now created (some chat) g wait).0
  unfolding wait_kind
  wait_kind-IsPaused fast until chat now created g wait h p = p
  wait_kind-IsPaused read until chat now created g wait h p =
      IsPaused-tables until chat g _ refl refl p
  wait_kind-IsPaused write until chat now created g wait h p =
      let g' = record g { global_writes = (next_available g.global_writes now).0 } in
      chat_wait-IsPaused until chat now created g' h (IsPaused-tables until chat g g' refl refl p)

  pub wait_time-IsPaused :
      (until : F) (chat : ℤ) (now created : F) (method : Text) (g : Guard F)
      → ltf now until ≡ true
      → IsPaused until chat g
      → IsPaused until chat (wait_time now created method (some chat) g).0
  unfolding wait_time
  wait_time-IsPaused until chat now created method g h p =
      wait_kind-IsPaused (method_kind method) until chat now created g
        (fmax zero (sub g.egress_paused_until now)) h p

  pub try_acquire-IsPaused :
      (until : F) (chat : ℤ) (now created : F) (method : Text) (g : Guard F)
      → ltf now until ≡ true
      → IsPaused until chat g
      → IsPaused until chat (try_acquire now created method (some chat) g).0
  unfolding call
  try_acquire-IsPaused until chat now created method g h p =
      call_keeps until chat
        (record { now = now; created = created; method = method; chat = some chat }) g h p

  pub try_acquire_paused :
      (until : F) (chat : ℤ) (now created : F) (method : Text) (g : Guard F)
      → ltf now until ≡ true
      → method_kind method ≡ write
      → IsPaused until chat g
      → (try_acquire now created method (some chat) g).1 ≡ false
  unfolding call
  try_acquire_paused until chat now created method g h k p =
      call_refused until chat
        (record { now = now; created = created; method = method; chat = some chat }) g h p k refl

  pub after-IsPaused :
      (now created retry_after : F) (chat : ℤ) (g : Guard F) (cs : List (Call F))
      → AllBefore (add now retry_after) cs
      → IsPaused
          (add now retry_after)
          chat
          (after cs (report_429 now created (some chat) retry_after g))
  after-IsPaused now created retry_after chat g cs h =
      after_keeps (add now retry_after) chat cs _ h (report-IsPaused now created retry_after chat g)
