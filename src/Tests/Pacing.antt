-- ===== src/Tests/Pacing.antt =====
-- The pacing of internal/rateguard/rateguard.go at concrete values.
use tg_session_gateway.Prelude.{
  ◌-ℤ◌, ℤ, pos, ◌+ℤ◌, find, leb_ℤ, ◌≡◌, refl, ◌↔◌, true, false, some, List, [], ◌∷◌, arith,
}
use tg_session_gateway.Float64.{integral}
use tg_session_gateway.Float64.Scaled.{div_ℤ}
use tg_session_gateway.RateGuard.Method.{Text, text, write, method_kind}
use tg_session_gateway.RateGuard.Bucket.{Bucket, new_bucket, try_take}
use tg_session_gateway.RateGuard.Bucket.Laws.{IsValid, try_take-IsValid, RateIsOrdinary}
use tg_session_gateway.RateGuard.Guard.{
  RateConfig, Guard, ok, chat_bucket, try_acquire, wait_time, chat_send_state, report_429,
}
use tg_session_gateway.RateGuard.Guard.Laws.{
  admit_both, BotUncharged, try_acquire-admit_both, try_acquire_refused,
}
use tg_session_gateway.RateGuard.Guard.Blocks.{Call, call, after, chat-report_429}
use tg_session_gateway.RateGuard.Guard.Waits.{chat_send_state-try_acquire, wait_time-try_acquire}

abbrev send : Text
send = text "sendMessage"

send_is_write : method_kind send ≡ write
unfolding method_kind
send_is_write = refl

-- One message a second to a chat, three at first; thirty a second in all.
abbrev limits : RateConfig ℤ
limits = record {
  private_rate = pos 1;
  private_burst = pos 3;
  group_rate = pos 1;
  group_burst = pos 5;
  global_rate = pos 1;
  global_burst = pos 30;
  read_rate = pos 10;
  paid_rate = pos 1;
}

abbrev bot : Guard ℤ
bot = record {
  cfg = limits;
  private_chats = [];
  groups = [];
  global_writes = record {
    rate = pos 1;
    capacity = pos 30;
    tokens = pos 30;
    updated = pos 100;
    paused_until = pos 0;
  };
  paid = record {
    rate = pos 1;
    capacity = pos 1;
    tokens = pos 1;
    updated = pos 100;
    paused_until = pos 0;
  };
  reads = record {
    rate = pos 10;
    capacity = pos 10;
    tokens = pos 10;
    updated = pos 100;
    paused_until = pos 0;
  };
  paid_enabled = false;
  egress_paused_until = pos 0;
  paid_lane = false;
}

abbrev paused_bot : Guard ℤ
paused_bot = record bot { egress_paused_until = pos 500 }

abbrev bucket : Bucket ℤ
bucket = record {
  rate = pos 1;
  capacity = pos 3;
  tokens = pos 2;
  updated = pos 100;
  paused_until = pos 0;
}

one_ordinary : RateIsOrdinary ⦃N = integral⦄ (pos 1)
unfolding div_ℤ ◌-ℤ◌
one_ordinary t h = ground arith

bucket-IsValid : IsValid bucket
bucket-IsValid = record {
  rate_nonneg = refl;
  room = refl;
  tokens_nonneg = refl;
  tokens_capped = refl;
}

chat_rate : RateIsOrdinary (chat_bucket (pos 101) (pos 7) bot).rate
unfolding chat_bucket new_bucket find
chat_rate = one_ordinary

abbrev later : List (Call ℤ)
later =
    record { now = pos 110; created = pos 110; method = send; chat = some (pos 8) }
    ∷ record { now = pos 120; created = pos 120; method = send; chat = some (pos 7) }
    ∷ []

abbrev again : Call ℤ
again = record { now = pos 125; created = pos 125; method = send; chat = some (pos 7) }

try_acquire-admit_both_example :
    try_acquire (pos 101) (pos 101) send (some (pos 7)) bot
    ≡ admit_both (pos 101) (pos 7) (chat_bucket (pos 101) (pos 7) bot) bot
try_acquire-admit_both_example =
    try_acquire-admit_both (pos 101) (pos 101) send (pos 7) bot send_is_write refl

refused : (try_acquire (pos 101) (pos 101) send (some (pos 7)) paused_bot).1 ≡ false
unfolding try_acquire
refused = refl

try_acquire_refused_example :
    BotUncharged
      (pos 101)
      paused_bot
      (try_acquire (pos 101) (pos 101) send (some (pos 7)) paused_bot).0
try_acquire_refused_example =
    try_acquire_refused (pos 101) (pos 101) send (some (pos 7)) paused_bot refused

chat-report_429_example :
    (call again (after later (report_429 (pos 101) (pos 101) (some (pos 7)) (pos 30) bot))).1
    ≡ false
unfolding ◌+ℤ◌
chat-report_429_example =
    chat-report_429 (pos 101) (pos 101) (pos 30) (pos 7) bot later again (refl, (refl, tt)) refl
      send_is_write refl

chat_send_state-try_acquire_example :
    ((chat_send_state (pos 101) (pos 101) (some (pos 7)) bot).1 ≡ ok)
    ↔ ((try_acquire (pos 101) (pos 101) send (some (pos 7)) bot).1 ≡ true)
chat_send_state-try_acquire_example =
    chat_send_state-try_acquire (pos 101) (pos 101) send (pos 7) bot send_is_write refl one_ordinary
      chat_rate

wait_time-try_acquire_example :
    (leb_ℤ (wait_time (pos 101) (pos 101) send (some (pos 7)) bot).1 (pos 0) ≡ true)
    ↔ ((try_acquire (pos 101) (pos 101) send (some (pos 7)) bot).1 ≡ true)
wait_time-try_acquire_example =
    wait_time-try_acquire (pos 101) (pos 101) send (pos 7) bot send_is_write refl one_ordinary
      chat_rate

try_take-IsValid_example : IsValid (try_take bucket (pos 101)).0
try_take-IsValid_example = try_take-IsValid bucket (pos 101) refl bucket-IsValid
