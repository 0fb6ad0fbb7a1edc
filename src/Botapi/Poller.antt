-- ===== src/Botapi/Poller.antt =====
-- The poller of internal/botapi/session.go, the one caller of getUpdates for a bot. A round of its
-- loop takes what the client answers; what other goroutines do to the session during a wait is part
-- of the input.
pub mod Progress
pub mod Restart
use tg_session_gateway.Prelude.{
  ℤ, pos, ltb_ℤ, ◌+ℤ◌, Bool, true, false, Option, none, some, List, [], ◌∷◌, map, String,
  if◌then◌else◌,
}
use tg_session_gateway.Float64.{Float64, ltf, fmin}
use tg_session_gateway.RateGuard.Method.{Text}
use tg_session_gateway.RateGuard.Guard.{report_429}
use tg_session_gateway.Store.Gateway.{Bots, BackoffRow, save_offset, get_offset, save_backoff}
use tg_session_gateway.Store.Queue.{
  Update, Queue, Outcome, more, overflow, panic, wrap64, push_all, ack,
}
use tg_session_gateway.Botapi.Value.{Value, number_of}
use tg_session_gateway.Botapi.Typing.{Typing}
use tg_session_gateway.Botapi.Typing.Updates.{UserAction, Readings, on_updates}
use tg_session_gateway.Botapi.Session.{
  State, connecting, live, paused, draining, error, Session, note_real_429,
}

-- An update of a reply: for the queue, for the offset, and for the typing indicator.
pub record Polled (F : Type 0) : Type 0 where
  pub update : Update
  pub update_id : Option (Value F)
  pub action : UserAction F
  pub pushed_at : F

pub data Answer (F : Type 0) : Type 0 where
  -- the client fails, with the context alive or cancelled
  unreachable : String → Answer F
  ended : Answer F
  -- not JSON
  unreadable : String → Answer F
  -- not ok, with the field retry_after
  refused : Option (Value F) → Answer F
  received : List (Polled F) → Answer F

-- What other goroutines do to the session meanwhile: the offsets that consumers acknowledge, and
-- the state that is set, if one is.
pub record Meanwhile : Type 0 where
  pub acks : List ℤ
  pub state : Option State

pub record Input (F : Type 0) : Type 0 where
  pub answer : Answer F
  -- during the long poll, and during the wait
  pub polling : Meanwhile
  pub landed : Meanwhile
  -- the context outlives the wait
  pub outlived : Bool
  pub report_at : F
  pub report_made : F
  pub save_ok : Bool
  pub save_at : F
  pub pruned_at : F
  pub offset_ok : Bool

pub record Poller (F : Type 0) : Type 0 where
  pub session : Session F
  pub offset : ℤ
  pub backoff : F
  pub bots : Bots
  pub backoffs : List (BackoffRow F)
  pub typing : Typing F

pub data Next (F : Type 0) : Type 0 where
  goes : Poller F → Next F
  returns : Poller F → Next F
  -- the queue panics
  crash : Next F

abbrev pub set_state : {F : Type 0} → State → Poller F → Poller F
set_state st p = record p { session = record p.session { state = st } }

abbrev pub set_error : {F : Type 0} → String → Poller F → Poller F
set_error msg p = record p { session = record p.session { last_error = msg } }

abbrev pub is_idle : State → Bool
is_idle connecting = false
is_idle live = false
is_idle paused = true
is_idle draining = true
is_idle error = false

abbrev pub is_error : State → Bool
is_error connecting = false
is_error live = false
is_error paused = false
is_error draining = false
is_error error = true

module _ ⦃N : Float64⦄ where
  open N use {F, leb, zero, add, mul, of_int, to_int}

  abbrev pub ack_each : List ℤ → Queue F → Queue F
  ack_each [] q = q
  ack_each (k ∷ ks) q = ack_each ks (ack k q)

  abbrev pub set_state_if : Option State → Poller F → Poller F
  set_state_if none p = p
  set_state_if (some st) p = set_state st p

  abbrev pub land : Meanwhile → Poller F → Poller F
  land m p =
      set_state_if m.state
        (record p { session = record p.session { queue = ack_each m.acks p.session.queue } })

  -- The goroutine's wait: `sleepJittered`, or the one of a paused session.
  abbrev pub wait : Input F → Poller F → (Poller F → Poller F) → Next F
  wait i p k = if i.outlived then goes (k (land i.landed p)) else returns (land i.landed p)

  -- encoding/json and fmt.Sscanf, the clock of the typing indicator, and PollBackoffMax of the
  -- configuration.
  pub record Setup : Type 0 where
    pub marshal : Update → Option String
    pub scan : Text → Option F
    pub readings : Polled F → Readings
    pub backoff_max : F

  module _ ⦃S : Setup⦄ where
    open S use {marshal, scan, readings, backoff_max}

    abbrev pub double : Poller F → Poller F
    double p = record p { backoff = fmin (mul p.backoff (of_int (pos 2))) backoff_max }

    -- `int64(numberOf(u["update_id"]))`
    abbrev pub number_id : Polled F → ℤ
    number_id u = to_int (number_of scan u.update_id)

    -- `if int64(id) > offset { offset = int64(id) }`, for each update.
    unfoldable pub advance : List (Polled F) → ℤ → ℤ
    advance [] offset = offset
    advance (u ∷ us) offset =
        let id = number_id u in advance us (if ltb_ℤ offset id then id else offset)

    abbrev with_queue : Queue F → Poller F → Poller F
    with_queue q p = record p { session = record p.session { queue = q } }

    -- After PushAll: the offset, its row, and the typing indicator.
    unfoldable pub after_push : Input F → List (Polled F) → Poller F → Poller F
    after_push i us p =
        let s = p.session in
        let offset = advance us p.offset in
        let (g, t) =
          on_updates s.typing s.name (map (λ u. (u.action, readings u)) us) s.guard p.typing in
        record p {
          offset = offset;
          bots = save_offset i.offset_ok s.name offset p.bots;
          typing = t;
          session = record s { guard = g };
        }

    -- An error of PushAll is logged.
    unfoldable pub pushed : Input F → List (Polled F) → Outcome F → Poller F → Next F
    pushed i us (more b) p = goes (after_push i us (with_queue b.queue p))
    pushed i us (overflow b) p = goes (after_push i us (with_queue b.queue p))
    pushed i us panic p = crash

    abbrev recover : Poller F → Poller F
    recover p = if is_error p.session.state then set_state live p else p

    unfoldable pub on_batch : Input F → List (Polled F) → Poller F → Next F
    on_batch i [] p = goes (recover p)
    on_batch i (u ∷ us) p =
        pushed i (u ∷ us)
          (push_all marshal i.pruned_at (map (λ v. (v.update, v.pushed_at)) (u ∷ us))
            p.session.queue)
          p

    -- A 429 of getUpdates pauses the whole bot.
    unfoldable pub pause_bot : Input F → F → Poller F → Poller F
    pause_bot i retry p =
        let s = note_real_429 p.session in
        record p {
          session = record s { guard = report_429 i.report_at i.report_made none retry s.guard };
          backoffs = save_backoff i.save_ok s.name none (add i.save_at retry) p.backoffs;
        }

    unfoldable pub on_answer : Input F → Answer F → Poller F → Next F
    on_answer i (unreachable msg) p =
        wait i (set_error msg (set_state error p)) (λ q. set_state live (double q))
    on_answer i ended p = returns p
    on_answer i (unreadable msg) p = wait i (set_error msg p) double
    on_answer i (refused retry) p =
        let r = number_of scan retry in
        if ltf zero r then wait i (pause_bot i r p) (λ q. q) else wait i p double
    on_answer i (received us) p = on_batch i us (record p { backoff = of_int (pos 1) })

    -- A round of the loop.
    unfoldable pub poll_round : Input F → Poller F → Next F
    poll_round i p =
        if is_idle p.session.state
        then wait i p (λ q. q)
        else on_answer i i.answer (land i.polling p)

    -- The offset that a round asks for.
    abbrev pub asked_offset : Poller F → ℤ
    asked_offset p = wrap64 (p.offset +ℤ pos 1)

    -- The start of the goroutine; `deleteWebhook` is asked for first, and its error is logged. The
    -- offset is 0 if its row cannot be read.
    unfoldable pub start_poller : Bool → F → Poller F → Poller F
    start_poller read_ok now p = record p {
      backoff = of_int (pos 1);
      offset = get_offset read_ok p.session.name p.bots;
      session = record p.session { state = live; connected_since = now };
    }

    unfoldable pub poll : List (Input F) → Poller F → Next F
    poll [] p = goes p
    poll (i ∷ is) p = elim (poll_round i p) [
      | goes q ↦ poll is q
      | returns q ↦ returns q
      | crash ↦ crash
    ]
