-- ===== src/Tests/Life.antt =====
-- The sessions of internal/mtproto/sessions.go at concrete values.
use tg_session_gateway.Prelude.{
  ℤ, pos, ◌+ℤ◌, ◌≡◌, ◌≢◌, refl, true, false, none, some, List, [], ◌∷◌, ◌≤◌, length, arith,
  string_has_eq, pair_has_eq,
}
use tg_session_gateway.Float64.{integral}
use tg_session_gateway.RateGuard.Method.{Text, text}
use tg_session_gateway.Mtproto.Session.{
  Session, connecting, Turn, failed, terminal, includes, classify_start_error, new_session,
}
use tg_session_gateway.Mtproto.Session.Life.{
  Event, turned, ended, paused_by, resumed_by, restarted_by, step, run,
}
use tg_session_gateway.Mtproto.Session.Life.Quarantine.{Quarantined, Quarantined-run}
use tg_session_gateway.Mtproto.Session.Life.Locking.{Guarded, Guarded-run}
use tg_session_gateway.Mtproto.Session.Life.Spacing.{start_attempts-run}
use tg_session_gateway.Mtproto.Session.Feed.{FeedUpdate, Feed, push_update}
use tg_session_gateway.Mtproto.Session.Feed.Belt.{newest, belt_pushes, belt_pushes-newest}
use tg_session_gateway.Mtproto.Session.Feed.Numbers.{IsNumbered, push_update-IsNumbered}

abbrev at_second : ℤ → Turn ℤ
at_second k = record { now = k; after = k; is_connected = false; ping_ok = true; lock_ok = true }

abbrev session : Session ℤ
session = record {
  state = connecting;
  has_client = false;
  connected_since = pos 0;
  terminal_error = false;
  next_retry_at = pos 0;
  stopped = false;
  reconnects = 0;
  start_attempts = 1;
  last_ping_ok_at = pos 0;
  ping_at = pos 0;
  send_paused = false;
  lock_held = true;
  backoff = pos 4;
  starting = some false;
}

abbrev revoked : Session ℤ
revoked = record session { terminal_error = true; starting = none }

abbrev events : List (Event ℤ)
events = turned (at_second (pos 10)) ∷ restarted_by ∷ resumed_by ∷ turned (at_second (pos 20)) ∷ []

Quarantined-run_example : Quarantined 1 (run events revoked)
Quarantined-run_example = Quarantined-run 1 events revoked (refl, refl, refl)

Guarded-run_example : Guarded (run events new_session)
Guarded-run_example = Guarded-run events (refl, (refl, (refl, (refl, tt))))

abbrev message : Text
message = text "timeout"

is_not_terminal : classify_start_error none message ≢ terminal
unfolding classify_start_error includes
is_not_terminal e = ground arith

start_attempts-run_example :
    (run
      (turned (at_second (pos 102)) ∷ paused_by ∷ resumed_by ∷ [])
      (step (ended (failed none message (pos 0)) (pos 100) (pos 100)) session)).start_attempts
    ≡ 1
unfolding classify_start_error includes ◌+ℤ◌
start_attempts-run_example =
    start_attempts-run none message (pos 0) (pos 100) (pos 100) false
      (turned (at_second (pos 102)) ∷ paused_by ∷ resumed_by ∷ []) session refl is_not_terminal
      (refl, (refl, (refl, tt)))

abbrev update : ℤ → FeedUpdate ℤ
update k = record { gw_seq = some k; gw_enqueued_at = some (pos 50); content = "hello" }

abbrev feed : Feed ℤ
feed = record {
  name = "shop";
  next_seq = pos 4;
  last_update_at = pos 0;
  update_ch = [];
  capacity = 2;
  persist_failures = 0;
  rows = [];
  dead_letters = [];
}

belt_pushes-newest_example :
    (belt_pushes 2 (update (pos 1) ∷ update (pos 2) ∷ update (pos 3) ∷ []) []
      ≡ newest 2 (update (pos 1) ∷ update (pos 2) ∷ update (pos 3) ∷ []))
    × (length (belt_pushes 2 (update (pos 1) ∷ update (pos 2) ∷ update (pos 3) ∷ []) []) ≤ 2)
belt_pushes-newest_example =
    belt_pushes-newest 2 (update (pos 1) ∷ update (pos 2) ∷ update (pos 3) ∷ []) [] (omega arith)

push_update-IsNumbered_example :
    IsNumbered
      (push_update (λ u. some (u.content)) (λ u. u.content) true true (pos 60) "hello" feed)
push_update-IsNumbered_example =
    push_update-IsNumbered (λ u. some (u.content)) (λ u. u.content) true true (pos 60) "hello" feed
      (omega arith) (omega arith) (tt, tt)
