-- ===== src/Tests/Calls.antt =====
-- The calls of internal/botapi/proxy.go at concrete values.
use tg_session_gateway.Prelude.{
  List, ℤ, pos, ◌+ℤ◌, ◌-ℤ◌, ◌≡◌, refl, true, false, Option, none, some, [], ◌∷◌, find, put, remove,
  Every, pair_has_eq, string_has_eq, int_has_eq, is_some,
}
use tg_session_gateway.Float64.{integral}
use tg_session_gateway.Float64.Scaled.{mul_ℤ}
use tg_session_gateway.RateGuard.Method.{
  contains, Text, text, to_lower, lower_rune, write, method_kind,
}
use tg_session_gateway.RateGuard.Bucket.{Bucket, next_available, refill, accrue, unpause, try_take}
use tg_session_gateway.RateGuard.Guard.{
  RateConfig, Guard, try_acquire, acquire, acquire_write, take_global, wait_time, wait_kind,
  enter_paid_lane, exit_paid_lane,
}
use tg_session_gateway.Store.Idempotency.{
  ClaimFaults, claimed, proceeds, idempotency_claim, claim_row, delete_expired_key,
  idempotency_finish, finish_row, idempotency_fail, fail_row,
}
use tg_session_gateway.Store.Idempotency.Window.{claim, key_run}
use tg_session_gateway.Store.Queue.{Queue}
use tg_session_gateway.Botapi.Value.{
  boolean, integer, Object, extract_chat_id, chat_field, chat_id_of, is_candidate, truthy,
}
use tg_session_gateway.Botapi.Typing.{Typing, chat_key_has_eq}
use tg_session_gateway.Botapi.Session.{live, Session, effective_on_limit, note_send, last_sends}
use tg_session_gateway.Botapi.Proxy.{
  failed, replied, Response, paid_refused, raw, replayed, Plane, Try, Env, with_guard, Codec,
}
use tg_session_gateway.Botapi.Proxy.Forward.{
  retry_after, settle_reply, admit, waits_for, forward, admit_and_forward,
}
use tg_session_gateway.Botapi.Session.{gateway_owned}
use tg_session_gateway.RateGuard.Guard.Blocks.Runs.{GuardOp, probed, waited, reported, guard_run}
use tg_session_gateway.Botapi.Proxy.Call.{
  claim_key, key_active, bookkeep, send_on_lane, settle_key, call_send, resolve_username, call,
}
use tg_session_gateway.Botapi.Proxy.Verbatim.{call_raw}
use tg_session_gateway.Botapi.Proxy.Wait.{climb, admit_ends}
use tg_session_gateway.Botapi.Proxy.Pausing.{Unsent, call_send-settle_reply}
use tg_session_gateway.Botapi.Proxy.Settling.{Ends, claimed_plane}
use tg_session_gateway.Botapi.Proxy.Whole.{call-Ends, call-call, claim-call}
use tg_session_gateway.Botapi.Proxy.FormKeys.{call_raw-call_raw}
use tg_session_gateway.Botapi.Proxy.Owned.{Looked, OnlyLookup}
use tg_session_gateway.Botapi.Routes.{HttpRequest, Decoders, call_route}
use tg_session_gateway.Botapi.Routes.Owned.{call_route-OnlyLookup}

abbrev pub limits : RateConfig ℤ
limits = record {
  private_rate = pos 1;
  private_burst = pos 3;
  group_rate = pos 1;
  group_burst = pos 5;
  global_rate = pos 1;
  global_burst = pos 30;
  read_rate = pos 10;
  paid_rate = pos 1;
}

abbrev bucket : Bucket ℤ
bucket = record {
  rate = pos 1;
  capacity = pos 30;
  tokens = pos 30;
  updated = pos 100;
  paused_until = pos 0;
}

abbrev pub open_guard : Guard ℤ
open_guard = record {
  cfg = limits;
  private_chats = [];
  groups = [];
  global_writes = bucket;
  paid = bucket;
  reads = bucket;
  paid_enabled = false;
  egress_paused_until = pos 0;
  paid_lane = false;
}

abbrev pub queue : Queue ℤ
queue = record {
  maxsize = pos 2;
  overflow = "drop_oldest";
  ttl = pos 0;
  items = [];
  seen = [];
  consumer_offset = pos 4;
  dropped = 0;
  expired = 0;
  bot_alias = "shop";
  persistent = true;
  unloaded_backlog = pos 0;
}

abbrev pub session_of : Guard ℤ → Session ℤ
session_of g = record {
  name = "shop";
  token = "1:a";
  state = live;
  queue = queue;
  guard = g;
  connected_since = pos 0;
  last_error = "";
  real_429 = 0;
  synth_429 = 0;
  last_429 = none;
  push_url = "";
  poll_cancelled = some false;
  push_cancelled = none;
  chat_names = [];
  on_limit = none;
  paid_broadcasts = false;
  typing = record {
    enabled = none;
    private_only = none;
    interval_s = none;
    timeout_s = none;
    timeout_text = none;
  };
  send_times = [];
}

abbrev pub indicator : Typing ℤ
indicator = record {
  settings = record {
    enabled = true;
    private_only = true;
    interval_s = pos 4;
    timeout_s = pos 60;
    timeout_text = "";
  };
  loops = [];
  next = 0;
  active = [];
  callbacks = [];
  closed = false;
}

abbrev plane_of : Guard ℤ → Plane ℤ
plane_of g = record {
  session = session_of g;
  keys = [];
  backoffs = [];
  typing = indicator;
  sent = [];
}

abbrev fine : ClaimFaults
fine = record { delete_ok = true; insert_ok = true; update_ok = true }

abbrev try_at : ℤ → Try ℤ
try_at t = record { now = t; made = t; wait_now = t; wait_made = t; cancelled = false }

abbrev env : ℤ → Env ℤ
env t = record {
  chat_reply = failed "";
  reply = replied 200 "{}";
  faults = fine;
  claim_at = t;
  settle_ok = true;
  settle_at = t;
  tries = try_at t ∷ [];
  sent_at = t;
  report_at = t;
  report_made = t;
  save_ok = true;
  save_at = t;
  noted_at = t;
}

instance abbrev plain : Codec ℤ
plain = record { marshal = λ o. some "{}"; unmarshal = λ s. none; scan = λ s. none }

abbrev send : Text
send = text "sendMessage"

-- A write without a chat, and one that wants the paid lane.
abbrev note : Object ℤ
note = []

abbrev paid_note : Object ℤ
paid_note = ("allow_paid_broadcast", boolean true) ∷ []

send_is_write : method_kind (to_lower send) ≡ write
unfolding method_kind lower_rune
send_is_write = refl

send_is_active : key_active "order-1" (method_kind (to_lower send)) ≡ true
unfolding method_kind lower_rune
send_is_active = refl

claim_proceeds : proceeds (idempotency_claim fine (pos 1000) ("shop", "order-1") []).0 ≡ true
unfolding idempotency_claim claim_row delete_expired_key find
claim_proceeds = refl

send_is_forwarded : contains gateway_owned (to_lower send) ≡ false
unfolding lower_rune
send_is_forwarded = refl

-- No getUpdates comes up.
abbrev unpolled : Object ℤ → Plane ℤ → Option (Response × Plane ℤ)
unpolled body w = none

call-Ends_example :
    Every
      (Ends
        (env (pos 1000))
        "order-1"
        claimed
        (claimed_plane (env (pos 1000)) "order-1" (plane_of open_guard)))
      (call unpolled (env (pos 1000)) (pos 30) "order-1" send note (plane_of open_guard))
unfolding idempotency_claim claim_row delete_expired_key find lower_rune resolve_username
call-Ends_example =
    call-Ends unpolled (env (pos 1000)) (pos 30) "order-1" send note (plane_of open_guard)
      send_is_forwarded send_is_active refl

refused_answer :
    call unpolled (env (pos 1000)) (pos 30) "order-1" send paid_note (plane_of open_guard)
    ≡ some (record { status = 403; body = paid_refused }, plane_of open_guard)
unfolding call resolve_username call_send claim_key idempotency_claim claim_row delete_expired_key
    find put remove method_kind lower_rune bookkeep send_on_lane truthy enter_paid_lane
    exit_paid_lane idempotency_fail fail_row extract_chat_id chat_field chat_id_of is_candidate
refused_answer = refl

claim-call_example : (idempotency_claim fine (pos 1001) ("shop", "order-1") []).0 ≡ claimed
unfolding lower_rune
claim-call_example =
    claim-call unpolled (env (pos 1000)) (pos 30) "order-1" send paid_note (plane_of open_guard)
      (plane_of open_guard) (record { status = 403; body = paid_refused }) fine (pos 1001)
      send_is_forwarded send_is_active refl claim_proceeds refused_answer refl refl refl

abbrev plane_after : Option (Response × Plane ℤ) → Plane ℤ
plane_after none = plane_of open_guard
plane_after (some (r, w)) = w

abbrev sent_plane : Plane ℤ
sent_plane =
    plane_after (call unpolled (env (pos 1000)) (pos 30) "order-1" send note (plane_of open_guard))

sent_answer :
    call unpolled (env (pos 1000)) (pos 30) "order-1" send note (plane_of open_guard)
    ≡ some (record { status = 200; body = raw "{}" }, sent_plane)
unfolding call resolve_username call_send claim_key idempotency_claim claim_row delete_expired_key
    find put remove method_kind lower_rune bookkeep send_on_lane truthy enter_paid_lane
    exit_paid_lane extract_chat_id chat_field chat_id_of is_candidate admit_and_forward waits_for
    effective_on_limit admit try_acquire acquire acquire_write take_global try_take refill accrue
    unpause settle_key forward settle_reply note_send last_sends idempotency_finish finish_row ◌+ℤ◌
    ◌-ℤ◌ mul_ℤ
sent_answer = refl

-- The plane in which the key comes again, after another key.
abbrev plane_between : Plane ℤ
plane_between = record sent_plane {
  keys = key_run (claim fine (pos 1100) ("shop", "order-2") ∷ []) sent_plane.keys;
}

call-call_example :
    (call unpolled (env (pos 1200)) (pos 30) "order-1" send note plane_between
      ≡ some (
        record { status = 200; body = replayed },
        claimed_plane (env (pos 1200)) "order-1" plane_between,
      ))
    × OnlyLookup plane_between (claimed_plane (env (pos 1200)) "order-1" plane_between)
unfolding lower_rune ◌-ℤ◌ resolve_username find
call-call_example =
    call-call unpolled (env (pos 1000)) (env (pos 1200)) (pos 30) "order-1" send send note note
      (plane_of open_guard) sent_plane (record { status = 200; body = raw "{}" })
      (claim fine (pos 1100) ("shop", "order-2") ∷ []) send_is_forwarded send_is_forwarded
      send_is_active send_is_active refl claim_proceeds sent_answer refl refl ((refl, refl), tt)
      (refl, refl)

-- The bot is paused as a whole.
abbrev shut_guard : Guard ℤ
shut_guard = record open_guard { egress_paused_until = pos 5000 }

shut : (try_acquire (pos 1000) (pos 1000) (to_lower send) none shut_guard).1 ≡ false
unfolding try_acquire
shut = refl

abbrev refused_form : Plane ℤ
refused_form =
    (call_raw (env (pos 1000)) (try_at (pos 1000)) "order-1" send "text=hi" none
      (plane_of shut_guard)).1

call_raw-call_raw_example :
    call_raw
      (env (pos 1030))
      (try_at (pos 1030))
      "order-1"
      send
      "text=hi"
      none
      (record refused_form { keys = key_run [] refused_form.keys })
    ≡ (
      record { status = 200; body = replayed },
      claimed_plane
          (env (pos 1030))
          "order-1"
          (record refused_form { keys = key_run [] refused_form.keys }),
    )
unfolding ◌-ℤ◌
call_raw-call_raw_example =
    call_raw-call_raw (env (pos 1000)) (env (pos 1030)) (try_at (pos 1000)) (try_at (pos 1030))
      "order-1" send "text=hi" none (plane_of shut_guard) [] send_is_active claim_proceeds shut tt
      ((refl, refl), refl)

admit_ends_example :
    is_some (
      admit true
        (to_lower send)
        none
        (pos 3)
        (pos 0)
        (try_at (pos 1000) ∷ try_at (pos 1002) ∷ [])
        shut_guard)
    ≡ true
unfolding climb try_acquire wait_time wait_kind method_kind lower_rune next_available refill accrue
    unpause ◌+ℤ◌ ◌-ℤ◌ mul_ℤ
admit_ends_example =
    admit_ends (pos 2) (to_lower send) none (pos 3) (pos 0)
      (try_at (pos 1000) ∷ try_at (pos 1002) ∷ []) shut_guard refl (refl, (refl, tt)) refl

-- A write to chat 7, after a 429 that does not say how long: five seconds.
abbrev to_seven : Object ℤ
to_seven = ("chat_id", integer (pos 7)) ∷ []

seven : extract_chat_id to_seven ≡ some (pos 7)
unfolding extract_chat_id chat_field chat_id_of is_candidate find
seven = refl

abbrev after_429 : Plane ℤ
after_429 =
    (settle_reply (env (pos 1000)) send (some (pos 7)) true (replied 429 "{}")
      (plane_of open_guard)).1

-- Other operations of the guard after the 429.
abbrev between : List GuardOp
between =
    probed (pos 1001) (pos 1001) (some (pos 7))
    ∷ waited (record { now = pos 1002; created = pos 1002; method = send; chat = some (pos 8) })
    ∷ reported (pos 1002) (pos 1002) (some (pos 7)) (pos 1)
    ∷ []

call_send-settle_reply_example :
    Every (Unsent (with_guard (guard_run between after_429.session.guard) after_429)) (
      call_send
        (env (pos 1003))
        (pos 30)
        ""
        send
        to_seven
        (with_guard (guard_run between after_429.session.guard) after_429))
unfolding ◌+ℤ◌ retry_after
call_send-settle_reply_example =
    call_send-settle_reply (env (pos 1000)) (env (pos 1003)) (pos 30) "" send send "{}" true
      to_seven (pos 7) between (plane_of open_guard) send_is_write seven (refl, (refl, (tt, tt)))
      (refl, refl, tt)

abbrev form : HttpRequest
form = record {
  content_type = text "application/x-www-form-urlencoded";
  content_length = pos 3;
  size = 3;
  body = "a=b";
  head = [];
  idempotency_key = "";
}

abbrev decoders : Decoders ℤ
decoders = record { parse_query = λ s. none; parse_json = λ s. none }

call_route-OnlyLookup_example : Every (Looked (plane_of open_guard)) (
    call_route decoders []
      (env (pos 1000))
      (pos 30)
      (try_at (pos 1000))
      form
      (text "setWebhook")
      (plane_of open_guard))
unfolding lower_rune
call_route-OnlyLookup_example =
    call_route-OnlyLookup decoders [] (env (pos 1000)) (pos 30) (try_at (pos 1000)) form
      (text "setWebhook") (plane_of open_guard) refl refl
