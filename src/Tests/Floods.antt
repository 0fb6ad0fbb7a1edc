-- ===== src/Tests/Floods.antt =====
-- The pacing of internal/rateguard/mt.go at concrete values.
use tg_session_gateway.Prelude.{ℤ, pos, ◌+ℤ◌, ◌-ℤ◌, find, ◌≡◌, refl, true, false, some, [], ◌∷◌}
use tg_session_gateway.Float64.{integral, ltf}
use tg_session_gateway.Float64.Scaled.{pow_ℕ, mul_ℤ}
use tg_session_gateway.RateGuard.Method.{
  Text, text, lower_rune, write, method_kind, contains, to_lower,
}
use tg_session_gateway.RateGuard.Bucket.{Bucket}
use tg_session_gateway.RateGuard.Guard.{RateConfig}
use tg_session_gateway.RateGuard.MtGuard.{
  MtGuard, flood_wait, peer_state, set_peer, silent_methods, chat_bucket, try_acquire,
  report_flood_wait,
}
use tg_session_gateway.RateGuard.MtGuard.Admission.{admit_both, try_acquire-charge_both}
use tg_session_gateway.RateGuard.MtGuard.Flood.{
  acquire_op, clear_op, mt_run, flood_pause, try_acquire-report_flood_wait,
}

abbrev limits : RateConfig ℤ
limits = record {
  private_rate = pos 1;
  private_burst = pos 3;
  group_rate = pos 1;
  group_burst = pos 5;
  global_rate = pos 1;
  global_burst = pos 30;
  read_rate = pos 10;
  paid_rate = pos 1;
}

abbrev bucket : Bucket ℤ
bucket = record {
  rate = pos 1;
  capacity = pos 30;
  tokens = pos 30;
  updated = pos 100;
  paused_until = pos 0;
}

abbrev session : MtGuard ℤ
session = record {
  faq = limits;
  mt = record {
    flood_backoff_base = pos 2;
    peer_flood_cooldown = pos 300;
    slowmode_respect = true;
    silent_rate = pos 5;
  };
  private_chats = [];
  groups = [];
  global_writes = bucket;
  reads = bucket;
  silent = bucket;
  paid = bucket;
  paid_enabled = false;
  egress_paused_until = pos 0;
  paid_lane = false;
  peer_backoffs = [];
}

abbrev send : Text
send = text "send_message"

send_is_write : method_kind send ≡ write
unfolding method_kind
send_is_write = refl

send_is_loud : contains silent_methods (to_lower send) ≡ false
unfolding lower_rune
send_is_loud = refl

no_flood : ltf ⦃N = integral⦄ (pos 101) (peer_state (pos 7) session).paused_until ≡ false
unfolding peer_state find
no_flood = refl

try_acquire-charge_both_example :
    try_acquire (pos 101) (pos 101) send (some (pos 7)) session
    ≡ admit_both
        (pos 101)
        (pos 7)
        (chat_bucket (pos 101) (pos 7) session)
        (set_peer (pos 7) (peer_state (pos 7) session) session)
try_acquire-charge_both_example =
    try_acquire-charge_both (pos 101) (pos 101) send (pos 7) session send_is_write send_is_loud
      no_flood refl

within :
    ltf ⦃N = integral⦄ (pos 141) (pos 100 +ℤ flood_pause flood_wait (pos 42) (pos 7) session) ≡ true
unfolding peer_state find ◌+ℤ◌ ◌-ℤ◌ pow_ℕ mul_ℤ
within = refl

try_acquire-report_flood_wait_example :
    (try_acquire (pos 141) (pos 141) (text "get_me") (some (pos 7)) (
      mt_run (clear_op (pos 8) ∷ acquire_op (pos 120) (pos 120) send (some (pos 7)) ∷ []) (
        report_flood_wait
          (pos 100)
          (pos 100)
          (some (record { type = flood_wait; wait = pos 42 }))
          (some (pos 7))
          session))).1
    ≡ false
try_acquire-report_flood_wait_example =
    try_acquire-report_flood_wait (pos 100) (pos 100) (pos 141) (pos 141)
      (record { type = flood_wait; wait = pos 42 }) (pos 7) (text "get_me")
      (clear_op (pos 8) ∷ acquire_op (pos 120) (pos 120) send (some (pos 7)) ∷ []) session refl
      (refl, (refl, tt)) within
