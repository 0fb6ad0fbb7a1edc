-- ===== src/Tests/Bots.antt =====
-- The sessions, the poller and the typing indicator of internal/botapi at concrete values.
use tg_session_gateway.Prelude.{
  keep, ℤ, pos, negsuc, ◌+ℤ◌, ◌-ℤ◌, ◌≡◌, refl, ◌≤ℤ◌, true, false, none, some, List, [], ◌∷◌, find,
  put, string_has_eq, int_has_eq, nat_has_eq, is_some, All, arith,
}
use tg_session_gateway.Float64.{integral}
use tg_session_gateway.RateGuard.Method.{Text}
use tg_session_gateway.RateGuard.Guard.{SendState}
use tg_session_gateway.RateGuard.Guard.Blocks.{IsPaused}
use tg_session_gateway.Store.Gateway.{Bots, BotRow, save_backoff}
use tg_session_gateway.Store.Queue.{is_seen}
use tg_session_gateway.Store.Queue.Invariant.{has_id, IsValid}
use tg_session_gateway.Botapi.Value.{float, integer, string, Object, itoa64, extract_chat_id}
use tg_session_gateway.Botapi.Value.ChatId.{extract_chat_id-itoa64}
use tg_session_gateway.Botapi.Typing.{
  Settings, ActiveLoop, Typing, of_bot, at, stop, cancel_timeout, chat_key_has_eq, active_count,
}
use tg_session_gateway.Botapi.Typing.Loop.{loop_round, goes_on}
use tg_session_gateway.Botapi.Typing.Updates.{UserAction, Readings}
use tg_session_gateway.Botapi.Typing.Runs.{Op, acted, returned, run}
use tg_session_gateway.Botapi.Typing.Quiet.{endless_round, run-cancel_timeout, run-stop}
use tg_session_gateway.Botapi.Session.{live, paused, draining, Session}
use tg_session_gateway.Botapi.Poller.{
  Polled, refused, received, unreadable, Input, Poller, Setup, number_id, on_batch, poll,
  start_poller,
}
use tg_session_gateway.Botapi.Poller.Progress.{Ends, Steady, poll-Steady}
use tg_session_gateway.Botapi.Poller.Restart.{start_poller-on_batch}
use tg_session_gateway.Botapi.Manager.{Manager, Engine, get, pause, resume, delete, attach}
use tg_session_gateway.Botapi.Manager.Restored.{attach-save_backoff}
use tg_session_gateway.Botapi.Manager.Lives.{IsCancelled, get-delete, resume-pause}
use tg_session_gateway.Tests.Calls.{limits, open_guard, queue, session_of, indicator}

abbrev chatty : Object ℤ
chatty = ("text", string []) ∷ []

extract_chat_id-itoa64_example :
    (t : Text) × (itoa64 (negsuc 1234) ≡ some t)
    × (extract_chat_id (put "chat_id" (string t) chatty) ≡ some (negsuc 1234))
    × (extract_chat_id (put "chat_id" (float (negsuc 1234)) chatty) ≡ some (negsuc 1234))
extract_chat_id-itoa64_example =
    extract_chat_id-itoa64 (negsuc 1234) chatty refl (omega arith) (omega arith)

-- One loop, in chat 7.
abbrev typing : Typing ℤ
typing = record indicator {
  loops = (0, record { deadline = at (pos 60); notify = true; cancelled = false }) ∷ [];
  next = 1;
  active = (("shop", pos 7), 0) ∷ [];
}

abbrev events : List Op
events = acted (pos 30) (pos 60) ("shop", pos 7) ∷ returned "shop" (pos 8) ∷ []

there : find ("shop", pos 7) typing.active ≡ some 0
unfolding find
there = refl

loaded : is_some (find 0 typing.loops) ≡ true
unfolding find
loaded = refl

run-cancel_timeout_example :
    (r : ActiveLoop ℤ) × (find 0 (run events (cancel_timeout "shop" (some (pos 7)) typing)).loops
      ≡ some r)
    × ((eff : Settings ℤ) (state : SendState) (now : ℤ) (c : ℤ)
        → loop_round eff state now c r ≡ endless_round eff state c)
run-cancel_timeout_example =
    run-cancel_timeout events "shop" (pos 7) 0 typing there loaded (omega arith)

run-stop_example :
    (r : ActiveLoop ℤ) × (find 0 (run events (stop "shop" (some (pos 7)) typing)).loops ≡ some r)
    × (goes_on r ≡ false)
run-stop_example = run-stop events "shop" (pos 7) 0 typing there loaded (omega arith)

abbrev action : UserAction ℤ
action = record { message = none; edited_message = none; callback_query = none }

abbrev readings : Polled ℤ → Readings
readings p = record { checked = p.pushed_at; made = p.pushed_at; started = p.pushed_at }

instance abbrev setup : Setup
setup = record {
  marshal = λ u. some u.content;
  scan = λ s. none;
  readings = readings;
  backoff_max = pos 60;
}

abbrev polled : ℤ → Polled ℤ
polled k = record {
  update = record { update_id = some k; content = "hello" };
  update_id = some (integer k);
  action = action;
  pushed_at = pos 100;
}

abbrev shop_row : BotRow
shop_row = record { token_enc = "x"; telegram_offset = pos 0; paused = false }

abbrev bots : Bots
bots = ("shop", shop_row) ∷ []

abbrev poller : Poller ℤ
poller = record {
  session = session_of open_guard;
  offset = pos 0;
  backoff = pos 1;
  bots = bots;
  backoffs = [];
  typing = indicator;
}

abbrev input : Input ℤ
input = record {
  answer = received (polled (pos 8) ∷ polled (pos 9) ∷ []);
  polling = record { acks = pos 5 ∷ []; state = some paused };
  landed = record { acks = []; state = none };
  outlived = true;
  report_at = pos 100;
  report_made = pos 100;
  save_ok = true;
  save_at = pos 100;
  pruned_at = pos 100;
  offset_ok = true;
}

abbrev inputs : List (Input ℤ)
inputs =
    record input { answer = unreadable "oops" }
    ∷ record input { answer = refused (some (integer (pos 3))) }
    ∷ input
    ∷ []

ids_mirrored : (k : ℤ) → is_seen k queue.seen ≡ has_id k queue.items
unfolding find
ids_mirrored k = refl

queue-IsValid : IsValid queue
queue-IsValid = record { bounded = omega arith; distinct = tt; mirrored = ids_mirrored }

poll-Steady_example : Ends (Steady poller) (poll inputs poller)
poll-Steady_example = poll-Steady inputs poller (omega arith) queue-IsValid refl

has_bot : is_some (find "shop" bots) ≡ true
unfolding find
has_bot = refl

start_poller-on_batch_example :
    Ends
      (λ q.
        All (λ v. number_id v ≤ℤ q.offset) (polled (pos 8) ∷ polled (pos 9) ∷ [])
        × ((start_poller true (pos 200) q).offset ≡ q.offset))
      (on_batch input (polled (pos 8) ∷ polled (pos 9) ∷ []) poller)
start_poller-on_batch_example =
    start_poller-on_batch input (polled (pos 8)) (polled (pos 9) ∷ []) (pos 200) poller
      (omega arith) queue-IsValid has_bot refl

abbrev manager : Manager ℤ
manager = record {
  sessions = ("shop", session_of open_guard) ∷ [];
  bots = bots;
  backoffs = [];
  typing = typing;
  gone = [];
}

abbrev found_session : Session ℤ
found_session = session_of open_guard

get_shop : get "shop" manager ≡ some found_session
unfolding get find
get_shop = refl

get-delete_example :
    let r = delete true "shop" manager in
    (r.1 ≡ true)
    × (get "shop" r.0 ≡ none)
    × (find "shop" r.0.bots ≡ none)
    × (active_count "shop" r.0.typing ≡ 0)
    × All (λ e. IsCancelled e.1 r.0.typing.loops) (keep (of_bot "shop") manager.typing.active)
    × (r.0.gone
        ≡ record found_session {
          state = draining;
          poll_cancelled = some true;
          push_cancelled = none;
          queue = record found_session.queue { persistent = false };
        }
          ∷ [])
    × (get "club" r.0 ≡ get "club" manager)
get-delete_example = get-delete "shop" "club" found_session manager get_shop refl

shop_row_found : find "shop" bots ≡ some shop_row
unfolding find
shop_row_found = refl

resume-pause_example :
    let r = (resume true "shop" (pause true "shop" manager).0).0 in
    (get "shop" r ≡ some (record found_session { state = live; poll_cancelled = some true }))
    × (find "shop" r.bots ≡ some (record shop_row { paused = false }))
resume-pause_example =
    resume-pause "shop" found_session shop_row manager get_shop shop_row_found refl

abbrev engine : Engine
engine = record {
  opened = some queue;
  clear_ok = true;
  load_ok = true;
  load_at = pos 1000;
  readings = record { now = pos 50; made = pos 50; wall = pos 1000 };
  made_at = pos 50;
  delete_ok = true;
  register_ok = true;
}

abbrev empty_manager : Manager ℤ
empty_manager = record { sessions = []; bots = []; backoffs = []; typing = indicator; gone = [] }

no_shop : get "shop" empty_manager ≡ none
unfolding get find
no_shop = refl

attach-save_backoff_example :
    (s : Session ℤ) × (get "shop"
        (attach some some limits engine "shop" "1:a" none false (record empty_manager {
          backoffs = save_backoff true "shop" (some (pos 7)) (pos 1100) [];
        })).0
      ≡ some s)
    × IsPaused (pos 50 +ℤ (pos 1100 -ℤ pos 1000)) (pos 7) s.guard
attach-save_backoff_example =
    attach-save_backoff some some limits engine "shop" "1:a" none false (pos 7) (pos 1100) queue
      empty_manager refl refl refl refl refl no_shop
