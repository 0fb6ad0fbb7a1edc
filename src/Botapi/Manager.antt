-- ===== src/Botapi/Manager.antt =====
-- Manager of internal/botapi/session.go: the sessions by alias, over the tables of
-- internal/store/gateway.go. Opening a queue is an argument, the box of the tokens too. A poller
-- that is started is the context in `poll_cancelled`; Botapi.Poller is what it runs.
pub mod Restored
pub mod Lives
use tg_session_gateway.Prelude.{
  ℤ, pos, eq_ℤ, Bool, true, false, Option, none, some, List, [], ◌∷◌, String, string_has_eq, ◌=?◌,
  find, put, remove, if◌then◌else◌,
}
use tg_session_gateway.Float64.{Float64}
use tg_session_gateway.RateGuard.Guard.{RateConfig, Guard, new_guard, restore_backoff}
use tg_session_gateway.Store.Gateway.{
  BotRow, Bots, BackoffRow, register_bot, get_token, delete_bot, set_paused, load_backoffs,
}
use tg_session_gateway.Store.Queue.{Queue}
use tg_session_gateway.Botapi.Typing.{Patch, Typing, stop_all}
use tg_session_gateway.Botapi.Session.{connecting, live, paused, draining, Session}

-- `gone` are the deleted sessions, which their goroutines still hold.
pub record Manager (F : Type 0) : Type 0 where
  pub sessions : List (String × Session F)
  pub bots : Bots
  pub backoffs : List (BackoffRow F)
  pub typing : Typing F
  pub gone : List (Session F)

-- What Attach returns: the session that is there, a new one, or the error of OpenQueue.
pub data Attached : Type 0 where
  kept attached not_opened : Attached

abbrev pub cancelled_if : Option Bool → Option Bool
cancelled_if none = none
cancelled_if (some b) = some true

abbrev pub no_patch : {F : Type 0} → Patch F
no_patch = record {
  enabled = none;
  private_only = none;
  interval_s = none;
  timeout_s = none;
  timeout_text = none;
}

-- `s.setState(st)`, of a session that is stored.
abbrev pub put_session : {F : Type 0} → String → Session F → Manager F → Manager F
put_session name s m = record m { sessions = put name s m.sessions }

-- Get
unfoldable pub get : {F : Type 0} → String → Manager F → Option (Session F)
get name m = find name m.sessions

-- Pause; `ok` if the row is written.
unfoldable pub pause_found :
    {F : Type 0} → Bool → String → Option (Session F) → Manager F → Manager F × Bool
pause_found ok name none m = (m, false)
pause_found ok name (some s) m =
    let s' = record s { state = paused; poll_cancelled = cancelled_if s.poll_cancelled } in
    (
      record (put_session name s' m) {
        typing = stop_all s.name m.typing;
        bots = set_paused ok name true m.bots;
      },
      true,
    )

unfoldable pub pause : {F : Type 0} → Bool → String → Manager F → Manager F × Bool
pause ok name m = pause_found ok name (get name m) m

-- `if s.pollCancel == nil`: a new poller.
abbrev pub started_if_nil : Option Bool → Option Bool
started_if_nil none = some false
started_if_nil (some b) = some b

-- Resume
unfoldable pub resume_found :
    {F : Type 0} → Bool → String → Option (Session F) → Manager F → Manager F × Bool
resume_found ok name none m = (m, false)
resume_found ok name (some s) m =
    let s' = record s { state = live; poll_cancelled = started_if_nil s.poll_cancelled } in
    (record (put_session name s' m) { bots = set_paused ok name false m.bots }, true)

unfoldable pub resume : {F : Type 0} → Bool → String → Manager F → Manager F × Bool
resume ok name m = resume_found ok name (get name m) m

-- Drain
unfoldable pub drain_found :
    {F : Type 0} → String → Option (Session F) → Manager F → Manager F × Bool
drain_found name none m = (m, false)
drain_found name (some s) m = (
  record (put_session name (record s { state = draining }) m) { typing = stop_all s.name m.typing },
  true,
)

unfoldable pub drain : {F : Type 0} → String → Manager F → Manager F × Bool
drain name m = drain_found name (get name m) m

-- What Delete does to the session: setState, pollCancel, pushCancel, and the Close of its queue,
-- which has no database any more.
abbrev torn_down : {F : Type 0} → Session F → Session F
torn_down s = record s {
  state = draining;
  poll_cancelled = cancelled_if s.poll_cancelled;
  push_cancelled = cancelled_if s.push_cancelled;
  queue = record s.queue { persistent = false };
}

-- Delete
unfoldable pub delete_found :
    {F : Type 0} → Bool → String → Option (Session F) → Manager F → Manager F × Bool
delete_found ok name none m = (m, false)
delete_found ok name (some s) m = (
  record m {
    sessions = remove name m.sessions;
    typing = stop_all s.name m.typing;
    bots = (delete_bot ok name m.bots).0;
    gone = torn_down s ∷ m.gone;
  },
  true,
)

unfoldable pub delete : {F : Type 0} → Bool → String → Manager F → Manager F × Bool
delete ok name m = delete_found ok name (get name m) m

-- SetPush
unfoldable pub set_push_found :
    {F : Type 0} → String → String → Option (Session F) → Manager F → Manager F × Bool
set_push_found name url none m = (m, false)
set_push_found name url (some s) m = (
  put_session name
      (record s { push_url = url; push_cancelled = if url =? "" then none else some false }) m,
  true,
)

unfoldable pub set_push : {F : Type 0} → String → String → Manager F → Manager F × Bool
set_push name url m = set_push_found name url (get name m) m

module _ ⦃N : Float64⦄ where
  open N use {F, zero, sub}

  -- The clock readings of restoreBackoffs: the wall clock's, and RestoreBackoff's, here one for all.
  pub record Readings : Type 0 where
    pub now : F
    pub made : F
    pub wall : F

  abbrev pub chat_of : ℤ → Option ℤ
  chat_of chat = if eq_ℤ chat (pos 0) then none else some chat

  -- The loop of restoreBackoffs.
  unfoldable pub restore_each : Readings → List (ℤ × F) → Guard F → Guard F
  restore_each c [] g = g
  restore_each c (r ∷ rows) g =
      restore_each c rows (restore_backoff c.now c.made (chat_of r.0) (sub r.1 c.wall) g)

  -- The engine's answers to one Attach, and what OpenQueue returns.
  pub record Engine : Type 0 where
    pub opened : Option (Queue F)
    pub clear_ok : Bool
    pub load_ok : Bool
    pub load_at : F
    pub readings : Readings
    pub made_at : F
    pub delete_ok : Bool
    pub register_ok : Bool

  module _ (seal open_token : String → Option String) (rate : RateConfig F) where
    -- restoreBackoffs
    unfoldable pub restore_backoffs : Engine → String → Guard F → Manager F → Guard F × Manager F
    restore_backoffs e name g m =
        let (left, rows) = load_backoffs e.clear_ok e.load_ok name e.load_at m.backoffs in
        (restore_each e.readings rows g, record m { backoffs = left })

    unfoldable pub new_session :
        String → String → Option String → Bool → Queue F → Guard F → Session F
    new_session name token on_limit paid queue guard = record {
      name = name;
      token = token;
      state = connecting;
      queue = queue;
      guard = guard;
      connected_since = zero;
      last_error = "";
      real_429 = 0;
      synth_429 = 0;
      last_429 = none;
      push_url = "";
      poll_cancelled = some false;
      push_cancelled = none;
      chat_names = [];
      on_limit = on_limit;
      paid_broadcasts = paid;
      typing = no_patch;
      send_times = [];
    }

    -- Attach, once no session of the alias is left.
    unfoldable pub attach_new :
        Engine
        → String
        → String
        → Option String
        → Bool
        → Option (Queue F)
        → Manager F
        → Manager F × Attached
    attach_new e name token on_limit paid none m = (m, not_opened)
    attach_new e name token on_limit paid (some queue) m =
        let g = record (new_guard rate e.made_at) { paid_enabled = paid } in
        let (g', m') = restore_backoffs e name g m in
        (
          record (put_session name (new_session name token on_limit paid queue g') m') {
            bots = register_bot seal open_token e.register_ok name token m'.bots;
          },
          attached,
        )

    unfoldable pub attach_found :
        Engine
        → String
        → String
        → Option String
        → Bool
        → Option (Session F)
        → Manager F
        → Manager F × Attached
    attach_found e name token on_limit paid none m =
        attach_new e name token on_limit paid e.opened m
    attach_found e name token on_limit paid (some s) m =
        if s.token =? token
        then (m, kept)
        else attach_new e name token on_limit paid e.opened (delete e.delete_ok name m).0

    -- Attach
    unfoldable pub attach :
        Engine → String → String → Option String → Bool → Manager F → Manager F × Attached
    attach e name token on_limit paid m = attach_found e name token on_limit paid (get name m) m

    abbrev pub pause_restored : Bool → String → Option (Session F) → Manager F → Manager F
    pause_restored false name s m = m
    pause_restored true name none m = m
    pause_restored true name (some s) m = put_session name (record s { state = paused }) m

    abbrev after_attach : BotRow → String → Manager F × Attached → Manager F
    after_attach row name (m, not_opened) = m
    after_attach row name (m, kept) = pause_restored row.paused name (get name m) m
    after_attach row name (m, attached) = pause_restored row.paused name (get name m) m

    abbrev restore_one : Engine → String → BotRow → Option String → Manager F → Manager F
    restore_one e name row none m = m
    restore_one e name row (some token) m = after_attach row name (attach e name token none false m)

    -- The loop of RestoreAll over the rows of ListBots.
    unfoldable pub restore_all : List ((String × BotRow) × Engine) → Manager F → Manager F
    restore_all [] m = m
    restore_all (((name, row), e) ∷ rows) m =
        restore_all rows (restore_one e name row (get_token seal open_token name m.bots) m)
