-- ===== src/Mtproto/Session/Life/Locking.antt =====
-- Starts of a session of internal/mtproto/sessions.go and its file lock.
use tg_session_gateway.Prelude.{
  pos, ◌≡◌, refl, Bool, true, false, not, ◌&&◌, Option, none, some, is_some, List, [], ◌∷◌, arith,
  All,
}
use tg_session_gateway.Float64.{Float64, fmin-le_right}
use tg_session_gateway.Mtproto.Session.{
  Session, Turn, StartKind, StartResult, started, failed, flood, terminal, retry, flood_rest,
  classify_start_error, new_session, keep_alive, begin_start, turn, start_failed, end_start,
  finish_start, pause, resume, drain, pause_sending, resume_sending, restart,
}
use tg_session_gateway.Mtproto.Session.Life.{
  Event, turned, ended, paused_by, resumed_by, drained_by, restarted_by, sends_paused,
  sends_resumed, unregistered, next_turn, step, run,
}

module _ ⦃N : Float64⦄ where
  open N use {F, leb, zero, add, sub, mul, of_int, leb_refl, of_int_le}

  abbrev pub is_unregister : Event F → Bool
  is_unregister unregistered = true
  is_unregister (turned t) = false
  is_unregister (ended r wall after) = false
  is_unregister paused_by = false
  is_unregister resumed_by = false
  is_unregister drained_by = false
  is_unregister restarted_by = false
  is_unregister sends_paused = false
  is_unregister sends_resumed = false

  -- A start under way holds the lock, and the next backoff is 5 minutes at most.
  abbrev pub Guarded : Session F → Type 0
  Guarded s =
      ((is_some s.starting && not s.lock_held) ≡ false) × (leb s.backoff (of_int (pos 300)) ≡ true)

  Guarded-start_failed :
      (k : StartKind) (after wait : F) (s : Session F)
      → s.starting ≡ none
      → leb s.backoff (of_int (pos 300)) ≡ true
      → Guarded (start_failed k after wait s)
  unfolding start_failed
  Guarded-start_failed flood after wait s e b = (rw e refl, b)
  Guarded-start_failed terminal after wait s e b = (rw e refl, b)
  Guarded-start_failed retry after wait s e b =
      (rw e refl, fmin-le_right (mul s.backoff (of_int (pos 2))) (of_int (pos 300)))

  Guarded-finish_start :
      (r : StartResult F) (wall after : F) (was : Option Bool) (s : Session F)
      → Guarded s
      → Guarded (finish_start r wall after was s)
  unfolding end_start
  Guarded-finish_start r wall after none s g = g
  Guarded-finish_start started wall after (some w) s g = (refl, of_int_le (pos 1) (pos 300) refl)
  Guarded-finish_start (failed info message drawn) wall after (some w) s g =
      Guarded-start_failed (classify_start_error info message) after (flood_rest info drawn)
        (record s { lock_held = false; starting = none }) refl g.1

  Guarded-turn :
      (t : Turn F) (was : Option Bool) (s : Session F) → Guarded s → Guarded (next_turn t was s)
  unfolding turn keep_alive begin_start
  Guarded-turn t none s g = ground arith
  Guarded-turn t (some w) s g = g

  Guarded-step :
      (e : Event F) (s : Session F) → is_unregister e ≡ false → Guarded s → Guarded (step e s)
  unfolding step pause resume drain restart pause_sending resume_sending
  Guarded-step (turned t) s h g = Guarded-turn t s.starting s g
  Guarded-step (ended r wall after) s h g = Guarded-finish_start r wall after s.starting s g
  Guarded-step paused_by s h g = g
  Guarded-step resumed_by s h g = g
  Guarded-step drained_by s h g = g
  Guarded-step restarted_by s h g = ground arith
  Guarded-step sends_paused s h g = g
  Guarded-step sends_resumed s h g = g
  Guarded-step unregistered s h g = ground arith

  Guarded-run_from :
      (es : List (Event F)) (s : Session F)
      → All (λ e. is_unregister e ≡ false) es
      → Guarded s
      → Guarded (run es s)
  unfolding run
  Guarded-run_from [] s h g = g
  Guarded-run_from (e ∷ es) s h g = Guarded-run_from es (step e s) h.1 (Guarded-step e s h.0 g)

  -- From the registration on, through any turns of the supervisor, ends of starts and admin
  -- operations on the session but Unregister, no start is under way without the file lock, and the
  -- supervisor's backoff is never above 300 seconds. The Shutdown of the manager, which releases
  -- every lock, is not among these events.
  pub Guarded-run :
      (es : List (Event F)) → All (λ e. is_unregister e ≡ false) es → Guarded (run es new_session)
  unfolding new_session
  Guarded-run es h = Guarded-run_from es _ h (refl, of_int_le (pos 1) (pos 300) refl)
