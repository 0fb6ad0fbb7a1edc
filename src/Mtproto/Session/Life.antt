-- ===== src/Mtproto/Session/Life.antt =====
-- Runs of one session of internal/mtproto/sessions.go: turns of its supervisor and the admin
-- operations, in any order. Connect takes time, so what happens while a start is under way stands
-- between the turn that began it and the event that ends it.
pub mod Quarantine
pub mod Locking
pub mod Spacing
use tg_session_gateway.Prelude.{Bool, Option, none, some, List, [], ◌∷◌}
use tg_session_gateway.Float64.{Float64}
use tg_session_gateway.Mtproto.Session.{
  Session, Turn, StartResult, turn, finish_start, pause, resume, drain, pause_sending,
  resume_sending, restart, unregister,
}

pub data Event (F : Type 0) : Type 0 where
  turned : Turn F → Event F
  ended : StartResult F → F → F → Event F
  paused_by resumed_by drained_by restarted_by sends_paused sends_resumed unregistered : Event F

module _ ⦃N : Float64⦄ where
  open N use {F, leb, zero, add, sub, mul, of_int, leb_refl, of_int_le}

  -- The supervisor makes no turn while it is in startClient.
  abbrev pub next_turn : Turn F → Option Bool → Session F → Session F
  next_turn t none s = turn t s
  next_turn t (some was_live) s = s

  unfoldable pub step : Event F → Session F → Session F
  step (turned t) s = next_turn t s.starting s
  step (ended r wall after) s = finish_start r wall after s.starting s
  step paused_by s = pause s
  step resumed_by s = resume s
  step drained_by s = drain s
  step restarted_by s = (restart s).0
  step sends_paused s = pause_sending s
  step sends_resumed s = resume_sending s
  step unregistered s = unregister s

  unfoldable pub run : List (Event F) → Session F → Session F
  run [] s = s
  run (e ∷ es) s = run es (step e s)
