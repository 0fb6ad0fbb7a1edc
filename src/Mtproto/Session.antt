-- ===== src/Mtproto/Session.antt =====
-- Session and its supervisor, internal/mtproto/sessions.go: the state of one session, what its
-- supervisor goroutine does in a turn of its loop, and what the admin operations do to it. The
-- Telegram client, the file lock and the clocks answer by arguments; the texts of LastError and of
-- the log are left out.
pub mod Start
pub mod Life
pub mod Feed
pub mod Consumers
pub mod Cache
use tg_session_gateway.Prelude.{
  pos, ℕ, ◌+◌, Bool, true, false, not, ◌&&◌, ◌||◌, if◌then◌else◌, Option, none, some, List, [], ◌∷◌,
}
use tg_session_gateway.Float64.{Float64, ltf, fmin}
use tg_session_gateway.RateGuard.Method.{Text, text, has_prefix}
use tg_session_gateway.RateGuard.Bucket.{jittered}
use tg_session_gateway.RateGuard.MtGuard.{FloodInfo}

pub data Lifecycle : Type 0 where
  connecting live paused draining error : Lifecycle

abbrev pub is_live : Lifecycle → Bool
is_live live = true
is_live connecting = false
is_live paused = false
is_live draining = false
is_live error = false

-- The test of the supervisor for a session that it lets rest.
abbrev pub is_resting : Lifecycle → Bool
is_resting paused = true
is_resting draining = true
is_resting live = false
is_resting connecting = false
is_resting error = false

-- `backoff` is the supervisor's own variable, and `starting` is on while it is in startClient: it
-- holds what `wasLive` was set to.
pub record Session (F : Type 0) : Type 0 where
  pub state : Lifecycle
  pub has_client : Bool
  pub connected_since : F
  pub terminal_error : Bool
  pub next_retry_at : F
  pub stopped : Bool
  pub reconnects : ℕ
  pub start_attempts : ℕ
  pub last_ping_ok_at : F
  pub ping_at : F
  pub send_paused : Bool
  pub lock_held : Bool
  pub backoff : F
  pub starting : Option Bool

pub data StartKind : Type 0 where
  flood terminal retry : StartKind

-- `strings.Contains`
unfoldable pub includes : Text → Text → Bool
includes m [] = has_prefix m []
includes m (c ∷ s) = has_prefix m (c ∷ s) || includes m s

abbrev pub includes_any : List Text → Text → Bool
includes_any [] s = false
includes_any (m ∷ ms) s = includes m s || includes_any ms s

abbrev pub terminal_markers : List Text
terminal_markers =
    text "AUTH_KEY_DUPLICATED"
    ∷ text "AUTH_KEY_INVALID"
    ∷ text "AuthKeyUnregistered"
    ∷ text "AuthKeyInvalid"
    ∷ text "SessionDuplicated"
    ∷ text "SESSION_REVOKED"
    ∷ text "SessionRevoked"
    ∷ text "ACCESS_TOKEN_EXPIRED"
    ∷ text "ACCESS_TOKEN_INVALID"
    ∷ text "UNAUTHORIZED"
    ∷ []

-- ClassifyStartError, on what ParseFloodWait found in the message, and the message.
unfoldable pub classify_start_error : Option FloodInfo → Text → StartKind
classify_start_error (some info) message = flood
classify_start_error none message =
    if includes_any terminal_markers message then terminal else retry

-- How startClient ended: on an error, what ParseFloodWait found in its text, the text, and what is
-- drawn for the jitter.
pub data StartResult (F : Type 0) : Type 0 where
  started : StartResult F
  failed : Option FloodInfo → Text → F → StartResult F

-- What one turn of the loop meets: the clock, IsConnected, Ping and the file lock. `after` is the
-- clock after a call that can block.
pub record Turn (F : Type 0) : Type 0 where
  pub now : F
  pub after : F
  pub is_connected : Bool
  pub ping_ok : Bool
  pub lock_ok : Bool

module _ ⦃N : Float64⦄ where
  open N use {F, leb, zero, add, sub, mul, of_int}

  -- The session as Register makes it.
  unfoldable pub new_session : Session F
  new_session = record {
    state = connecting;
    has_client = false;
    connected_since = zero;
    terminal_error = false;
    next_retry_at = zero;
    stopped = false;
    reconnects = 0;
    start_attempts = 0;
    last_ping_ok_at = zero;
    ping_at = zero;
    send_paused = false;
    lock_held = false;
    backoff = of_int (pos 1);
    starting = none;
  }

  -- The branch of a connected session: a ping each minute.
  unfoldable pub keep_alive : Turn F → Session F → Session F
  keep_alive t s =
      if ltf (of_int (pos 60)) (sub t.now s.ping_at)
      then (if t.ping_ok
          then record s { ping_at = t.now; last_ping_ok_at = t.after }
          else record s { ping_at = t.now })
      else s

  -- The lock, and then the way into startClient.
  unfoldable pub begin_start : Turn F → Session F → Session F
  begin_start t s =
      if not s.lock_held && not t.lock_ok
      then record s { state = error; next_retry_at = add t.after (of_int (pos 60)) }
      else record s {
        lock_held = true;
        state = connecting;
        start_attempts = s.start_attempts + 1;
        starting = some (ltf zero s.connected_since);
      }

  -- A turn of the loop of supervise up to startClient; it returns if it is stopped or quarantined.
  unfoldable pub turn : Turn F → Session F → Session F
  turn t s =
      if s.stopped || s.terminal_error
      then s
      else if is_resting s.state
      then s
      else if s.has_client && (t.is_connected && is_live s.state)
      then keep_alive t s
      else if ltf t.now s.next_retry_at
      then s
      else begin_start t s

  -- The switch on the kind of a start error.
  unfoldable pub start_failed : StartKind → F → F → Session F → Session F
  start_failed terminal after wait s = record s { state = error; terminal_error = true }
  start_failed flood after wait s = record s { state = connecting; next_retry_at = add after wait }
  start_failed retry after wait s = record s {
    state = error;
    next_retry_at = add after s.backoff;
    backoff = fmin (mul s.backoff (of_int (pos 2))) (of_int (pos 300));
  }

  abbrev pub flood_rest : Option FloodInfo → F → F
  flood_rest none drawn = zero
  flood_rest (some info) drawn =
      jittered (add (of_int info.wait) (of_int (pos 60))) (of_int (pos 60)) drawn

  -- The rest of the turn, once Connect has answered: startClient releases the lock if it failed.
  unfoldable pub end_start : StartResult F → F → F → Bool → Session F → Session F
  end_start started wall after was_live s = record s {
    has_client = true;
    state = live;
    connected_since = wall;
    backoff = of_int (pos 1);
    reconnects = if was_live then s.reconnects + 1 else s.reconnects;
    starting = none;
  }
  end_start (failed info message drawn) wall after was_live s =
      start_failed (classify_start_error info message) after (flood_rest info drawn)
        (record s { lock_held = false; starting = none })

  abbrev pub finish_start : StartResult F → F → F → Option Bool → Session F → Session F
  finish_start r wall after none s = s
  finish_start r wall after (some was_live) s = end_start r wall after was_live s

  -- Pause, Resume, Drain, PauseSending, ResumeSending on the session.
  unfoldable pub pause : Session F → Session F
  pause s = record s { state = paused }

  unfoldable pub resume : Session F → Session F
  resume s = record s { state = live }

  unfoldable pub drain : Session F → Session F
  drain s = record s { state = draining }

  unfoldable pub pause_sending : Session F → Session F
  pause_sending s = record s { send_paused = true }

  unfoldable pub resume_sending : Session F → Session F
  resume_sending s = record s { send_paused = false }

  -- Restart: refused for a quarantined session.
  unfoldable pub restart : Session F → Session F × Bool
  restart s = if s.terminal_error then (s, false) else (record s { next_retry_at = zero }, true)

  -- Unregister on the session that it found.
  unfoldable pub unregister : Session F → Session F
  unregister s = record s { state = draining; stopped = true; lock_held = false }

  -- LiveClient: is there one?
  abbrev pub live_client : Session F → Bool
  live_client s = s.has_client && is_live s.state
