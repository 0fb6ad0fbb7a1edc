-- ===== src/Mtproto/Session/Life/Spacing.antt =====
-- How far apart the starts of a session of internal/mtproto/sessions.go are.
use tg_session_gateway.Prelude.{
  ℕ, ◌≡◌, ◌≢◌, refl, sym, subst, Bool, true, false, Option, none, some, List, [], ◌∷◌, arith, All,
}
use tg_session_gateway.Float64.{Float64, ltf, ltf_of_ltf_of_le}
use tg_session_gateway.RateGuard.Method.{Text}
use tg_session_gateway.RateGuard.MtGuard.{FloodInfo}
use tg_session_gateway.Mtproto.Session.{
  Session, StartKind, failed, flood, terminal, retry, flood_rest, classify_start_error, keep_alive,
  turn, start_failed, end_start, finish_start, pause, resume, drain, pause_sending, resume_sending,
  unregister,
}
use tg_session_gateway.Mtproto.Session.Life.{
  Event, turned, ended, paused_by, resumed_by, drained_by, restarted_by, sends_paused,
  sends_resumed, unregistered, step, run,
}

module _ ⦃N : Float64⦄ where
  open N use {F, leb, zero, add, sub, mul, of_int, leb_refl, of_int_le}

  -- Not in startClient, and not to try before `until`.
  abbrev pub Waiting : F → ℕ → Session F → Type 0
  Waiting until n s =
      (s.starting ≡ none) × (leb until s.next_retry_at ≡ true) × (s.start_attempts ≡ n)

  -- The event is no turn at `until` or later, and no Restart.
  abbrev pub is_early : F → Event F → Bool
  is_early until (turned t) = ltf t.now until
  is_early until restarted_by = false
  is_early until (ended r wall after) = true
  is_early until paused_by = true
  is_early until resumed_by = true
  is_early until drained_by = true
  is_early until sends_paused = true
  is_early until sends_resumed = true
  is_early until unregistered = true

  Waiting-step :
      (until : F) (n : ℕ) (e : Event F) (s : Session F)
      → is_early until e ≡ true
      → Waiting until n s
      → Waiting until n (step e s)
  unfolding step turn keep_alive pause resume drain pause_sending resume_sending unregister
  Waiting-step until n (turned t) s h w =
      ground (arith, ltf_of_ltf_of_le t.now until s.next_retry_at)
  Waiting-step until n (ended r wall after) s h w = ground arith
  Waiting-step until n restarted_by s h w = ground arith
  Waiting-step until n paused_by s h w = w
  Waiting-step until n resumed_by s h w = w
  Waiting-step until n drained_by s h w = w
  Waiting-step until n sends_paused s h w = w
  Waiting-step until n sends_resumed s h w = w
  Waiting-step until n unregistered s h w = w

  Waiting-run :
      (until : F) (n : ℕ) (es : List (Event F)) (s : Session F)
      → All (λ e. is_early until e ≡ true) es
      → Waiting until n s
      → Waiting until n (run es s)
  unfolding run
  Waiting-run until n [] s h w = w
  Waiting-run until n (e ∷ es) s h w =
      Waiting-run until n es (step e s) h.1 (Waiting-step until n e s h.0 w)

  -- How long the supervisor rests after an error of this kind.
  abbrev pub rest_after : StartKind → F → F → F
  rest_after retry wait backoff = backoff
  rest_after flood wait backoff = wait
  rest_after terminal wait backoff = zero

  Waiting-start_failed :
      (k : StartKind) (after wait : F) (s : Session F)
      → k ≢ terminal
      → s.starting ≡ none
      → Waiting
          (add after (rest_after k wait s.backoff))
          s.start_attempts
          (start_failed k after wait s)
  unfolding start_failed
  Waiting-start_failed flood after wait s h e = (e, leb_refl (add after wait), refl)
  Waiting-start_failed retry after wait s h e = (e, leb_refl (add after s.backoff), refl)
  Waiting-start_failed terminal after wait s h e = ground arith

  -- After a start has failed, by a flood or an error that may pass, no other is tried before its
  -- rest is over: the current backoff, or the jittered wait of the flood. Turns before that time
  -- and any admin operations but Restart change nothing of it.
  pub start_attempts-run :
      (info : Option FloodInfo) (message : Text) (drawn wall after : F) (was_live : Bool)
      (es : List (Event F)) (s : Session F)
      → s.starting ≡ some was_live
      → let k = classify_start_error info message in
        k ≢ terminal
        → All
            (λ e. is_early (add after (rest_after k (flood_rest info drawn) s.backoff)) e ≡ true)
            es
        → (run es (step (ended (failed info message drawn) wall after) s)).start_attempts
          ≡ s.start_attempts
  unfolding step end_start
  start_attempts-run info message drawn wall after was_live es s e k h =
      let wait = flood_rest info drawn in
      let kind = classify_start_error info message in
      (Waiting-run (add after (rest_after kind wait s.backoff)) s.start_attempts es _ h (
        subst
          (λ w.
            Waiting (add after (rest_after kind wait s.backoff)) s.start_attempts
              (finish_start (failed info message drawn) wall after w s))
          (sym e)
          (Waiting-start_failed kind after wait (record s { lock_held = false; starting = none }) k
            refl))).2
