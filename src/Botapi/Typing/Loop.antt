-- ===== src/Botapi/Typing/Loop.antt =====
-- internal/botapi/typing.go: one round of the loop of a chat.
use tg_session_gateway.Prelude.{ℤ, pos, leb_ℤ, Bool, false, not, ◌&&◌, ◌||◌, if◌then◌else◌}
use tg_session_gateway.Float64.{Float64}
use tg_session_gateway.RateGuard.Guard.{SendState, paused, empty, ok}
use tg_session_gateway.Botapi.Typing.{Settings, Deadline, at, never, ActiveLoop}

-- What a loop does in one round: it sends or not, and it sleeps or returns.
pub data Round : Type 0 where
  -- sendChatAction, then the wait
  beat : Round
  -- the wait only
  skip : Round
  -- it returns; with the notice of the timeout
  notice : Round
  leave : Round

module _ ⦃N : Float64⦄ where
  open N use {F, leb, zero}

  abbrev pub excluded : Settings F → ℤ → Bool
  excluded eff chat = eff.private_only && leb_ℤ chat (pos 0)

  abbrev pub is_over : F → Deadline F → Bool
  is_over now (at d) = leb d now
  is_over now never = false

  -- onTimeout
  abbrev pub on_timeout : ℤ → ActiveLoop F → Round
  on_timeout chat r = if leb_ℤ chat (pos 0) || not r.notify then leave else notice

  abbrev pub round_at : Settings F → SendState → F → ℤ → ActiveLoop F → Round
  round_at eff paused now chat r = leave
  round_at eff ok now chat r = if is_over now r.deadline then on_timeout chat r else beat
  round_at eff empty now chat r = if is_over now r.deadline then on_timeout chat r else skip

  -- One round of loop, up to the wait.
  unfoldable pub loop_round : Settings F → SendState → F → ℤ → ActiveLoop F → Round
  loop_round eff state now chat r =
      if not eff.enabled || excluded eff chat then leave else round_at eff state now chat r

  -- The time of the wait.
  unfoldable pub interval : (default : F) → Settings F → F
  interval default eff = if leb eff.interval_s zero then default else eff.interval_s

  -- The end of the wait: `ctx.Done()` is ready once the loop is cancelled.
  unfoldable pub goes_on : ActiveLoop F → Bool
  goes_on r = not r.cancelled
