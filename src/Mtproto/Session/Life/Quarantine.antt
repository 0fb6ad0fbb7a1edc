-- ===== src/Mtproto/Session/Life/Quarantine.antt =====
-- What becomes of a session of internal/mtproto/sessions.go whose key is dead.
use tg_session_gateway.Prelude.{ℕ, ◌≡◌, true, none, List, [], ◌∷◌, arith}
use tg_session_gateway.Float64.{Float64}
use tg_session_gateway.Mtproto.Session.{
  Session, turn, pause, resume, drain, pause_sending, resume_sending, restart, unregister,
}
use tg_session_gateway.Mtproto.Session.Life.{
  Event, turned, ended, paused_by, resumed_by, drained_by, restarted_by, sends_paused,
  sends_resumed, unregistered, step, run,
}

module _ ⦃N : Float64⦄ where
  open N use {F, leb, zero, add, sub, mul, of_int, leb_refl, of_int_le}

  -- Quarantined, and not in startClient.
  abbrev pub Quarantined : ℕ → Session F → Type 0
  Quarantined n s = (s.terminal_error ≡ true) × (s.starting ≡ none) × (s.start_attempts ≡ n)

  Quarantined-step :
      (n : ℕ) (e : Event F) (s : Session F) → Quarantined n s → Quarantined n (step e s)
  unfolding step turn pause resume drain restart pause_sending resume_sending unregister
  Quarantined-step n (turned t) s q = ground arith
  Quarantined-step n (ended r wall after) s q = ground arith
  Quarantined-step n paused_by s q = q
  Quarantined-step n resumed_by s q = q
  Quarantined-step n drained_by s q = q
  Quarantined-step n restarted_by s q = ground arith
  Quarantined-step n sends_paused s q = q
  Quarantined-step n sends_resumed s q = q
  Quarantined-step n unregistered s q = q

  -- A quarantined session stays so, and no start is tried again, whatever turns and admin
  -- operations follow.
  pub Quarantined-run :
      (n : ℕ) (es : List (Event F)) (s : Session F) → Quarantined n s → Quarantined n (run es s)
  unfolding run
  Quarantined-run n [] s q = q
  Quarantined-run n (e ∷ es) s q = Quarantined-run n es (step e s) (Quarantined-step n e s q)
