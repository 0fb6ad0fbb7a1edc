-- ===== src/RateGuard/Guard.antt =====
-- Guard of internal/rateguard/rateguard.go: all pacing state of one bot token. The mutex makes a
-- method one step. `now` is the clock reading of the method; `created` is the reading that
-- NewBucket makes for itself, when the method creates the bucket of a chat.
pub mod Laws
pub mod Blocks
pub mod Waits
use tg_session_gateway.Prelude.{
  ℤ, pos, negsuc, leb_ℤ, Bool, true, false, ◌&&◌, if◌then◌else◌, Option, none, some, List, [], find,
  put, int_has_eq,
}
use tg_session_gateway.Float64.{Float64, ltf, fmax}
use tg_session_gateway.RateGuard.Method.{Text, Kind, fast, read, write, method_kind}
use tg_session_gateway.RateGuard.Bucket.{
  Bucket, new_bucket, refill, is_blocked, spend, refund, try_take, next_available, pause,
}

-- RateConfig of internal/config/config.go.
pub record RateConfig (F : Type 0) : Type 0 where
  pub private_rate : F
  pub private_burst : ℤ
  pub group_rate : F
  pub group_burst : ℤ
  pub global_rate : F
  pub global_burst : ℤ
  pub read_rate : F
  pub paid_rate : F

abbrev pub Buckets : Type 0 → Type 0
Buckets F = List (ℤ × Bucket F)

pub record Guard (F : Type 0) : Type 0 where
  pub cfg : RateConfig F
  pub private_chats : Buckets F
  pub groups : Buckets F
  pub global_writes : Bucket F
  pub paid : Bucket F
  pub reads : Bucket F
  pub paid_enabled : Bool
  pub egress_paused_until : F
  pub paid_lane : Bool

pub data SendState : Type 0 where
  paused empty ok : SendState

abbrev pub max_ℤ : ℤ → ℤ → ℤ
max_ℤ a b = if leb_ℤ a b then b else a

-- `chatID >= 0`
abbrev pub is_private : ℤ → Bool
is_private (pos n) = true
is_private (negsuc n) = false

module _ ⦃N : Float64⦄ where
  open N use {F, leb, zero, add, sub, to_int}

  -- NewGuard; each NewBucket reads the clock, here once.
  unfoldable pub new_guard : RateConfig F → F → Guard F
  new_guard cfg now = record {
    cfg = cfg;
    private_chats = [];
    groups = [];
    global_writes = new_bucket cfg.global_rate cfg.global_burst now;
    paid = new_bucket cfg.paid_rate (to_int cfg.paid_rate) now;
    reads = new_bucket cfg.read_rate (max_ℤ (pos 10) (to_int cfg.read_rate)) now;
    paid_enabled = false;
    egress_paused_until = zero;
    paid_lane = false;
  }

  abbrev pub or_new : F → F → ℤ → Option (Bucket F) → Bucket F
  or_new created rate burst none = new_bucket rate burst created
  or_new created rate burst (some b) = b

  -- chatBucket: the bucket of a chat, a new one if the table has none.
  unfoldable pub chat_bucket : F → ℤ → Guard F → Bucket F
  chat_bucket created chat g =
      if is_private chat
      then or_new created g.cfg.private_rate g.cfg.private_burst (find chat g.private_chats)
      else or_new created g.cfg.group_rate g.cfg.group_burst (find chat g.groups)

  -- What the pointer to the bucket in its table comes to hold.
  unfoldable pub set_chat : ℤ → Bucket F → Guard F → Guard F
  set_chat chat b g =
      if is_private chat
      then record g { private_chats = put chat b g.private_chats }
      else record g { groups = put chat b g.groups }

  unfoldable pub enter_paid_lane : Bool → Guard F → Guard F
  enter_paid_lane allowed g = record g { paid_lane = allowed && g.paid_enabled }

  unfoldable pub exit_paid_lane : Guard F → Guard F
  exit_paid_lane g = record g { paid_lane = false }

  unfoldable pub take_reads : F → Guard F → Guard F × Bool
  take_reads now g = let (b, got) = try_take g.reads now in (record g { reads = b }, got)

  unfoldable pub take_paid : F → Guard F → Guard F × Bool
  take_paid now g = let (b, got) = try_take g.paid now in (record g { paid = b }, got)

  unfoldable pub take_global : F → Guard F → Guard F × Bool
  take_global now g =
      let (b, got) = try_take g.global_writes now in (record g { global_writes = b }, got)

  -- The paid lane of a write to a chat whose bucket is `b`.
  unfoldable pub charge_paid : F → ℤ → Bucket F → Guard F → Guard F × Bool
  unfolding take_paid
  charge_paid now chat b g =
      let (g', got) = take_paid now g in
      if got then (set_chat chat (spend b) g', true) else (g', false)

  -- The last part of TryAcquire: the global bucket, and the chat's bucket once more.
  unfoldable pub charge_chat : F → ℤ → Bucket F → Guard F → Guard F × Bool
  charge_chat now chat b g =
      let b' = refill b now in
      if is_blocked b' now
      then (set_chat chat b' (record g { global_writes = refund g.global_writes }), false)
      else (set_chat chat (spend b') g, true)

  unfoldable pub charge_global : F → ℤ → Bucket F → Guard F → Guard F × Bool
  unfolding take_global charge_chat
  charge_global now chat b g =
      let b' = refill b now in
      let g' = set_chat chat b' g in
      let (g'', got) = take_global now g' in
      if is_blocked b' now
      then (g', false)
      else if got
      then charge_chat now chat b' g''
      else (g'', false)

  unfoldable pub acquire_chat : F → ℤ → Bucket F → Guard F → Guard F × Bool
  unfolding charge_paid charge_global
  acquire_chat now chat b g =
      let b' = refill b now in
      let g' = set_chat chat b' g in
      if is_blocked b' now
      then (g', false)
      else if g.paid_lane
      then charge_paid now chat b' g'
      else charge_global now chat b' g'

  unfoldable pub acquire_write : F → F → Option ℤ → Guard F → Guard F × Bool
  unfolding acquire_chat take_paid take_global
  acquire_write now created none g = if g.paid_lane then take_paid now g else take_global now g
  acquire_write now created (some chat) g = acquire_chat now chat (chat_bucket created chat g) g

  unfoldable pub acquire : Kind → F → F → Option ℤ → Guard F → Guard F × Bool
  unfolding take_reads acquire_write
  acquire fast now created chat g = (g, true)
  acquire read now created chat g = take_reads now g
  acquire write now created chat g = acquire_write now created chat g

  unfoldable pub try_acquire : F → F → Text → Option ℤ → Guard F → Guard F × Bool
  unfolding acquire
  try_acquire now created method chat g =
      if ltf now g.egress_paused_until
      then (g, false)
      else acquire (method_kind method) now created chat g

  unfoldable pub chat_wait : F → F → Option ℤ → Guard F → Guard F × F
  chat_wait now created none g = (g, zero)
  chat_wait now created (some chat) g =
      let (b, w) = next_available (chat_bucket created chat g) now in (set_chat chat b g, w)

  unfoldable pub wait_kind : Kind → F → F → Option ℤ → Guard F → F → Guard F × F
  unfolding chat_wait
  wait_kind fast now created chat g wait = (g, wait)
  wait_kind read now created chat g wait =
      let (b, w) = next_available g.reads now in (record g { reads = b }, fmax wait w)
  wait_kind write now created none g wait =
      let (b, w) = next_available g.global_writes now in
      (record g { global_writes = b }, fmax wait w)
  wait_kind write now created (some chat) g wait =
      let (b, w) = next_available g.global_writes now in
      let (g', c) = chat_wait now created (some chat) (record g { global_writes = b }) in
      (g', fmax (fmax wait w) c)

  unfoldable pub wait_time : F → F → Text → Option ℤ → Guard F → Guard F × F
  unfolding wait_kind
  wait_time now created method chat g =
      wait_kind (method_kind method) now created chat g (fmax zero (sub g.egress_paused_until now))

  unfoldable pub report_429 : F → F → Option ℤ → F → Guard F → Guard F
  report_429 now created (some chat) retry_after g =
      set_chat chat (pause retry_after now (chat_bucket created chat g)) g
  report_429 now created none retry_after g = record g {
    egress_paused_until = fmax g.egress_paused_until (add now retry_after);
    global_writes = pause retry_after now g.global_writes;
  }

  -- The part of ChatSendState after the test of the egress pause.
  unfoldable pub chat_state : F → F → Option ℤ → F → Guard F → Guard F × SendState
  chat_state now created none wait g = (g, if ltf zero wait then empty else ok)
  chat_state now created (some chat) wait g =
      let b = chat_bucket created chat g in
      let (b', w) = next_available b now in
      if ltf now b.paused_until
      then (set_chat chat b g, paused)
      else (set_chat chat b' g, if ltf zero (fmax wait w) then empty else ok)

  unfoldable pub chat_send_state : F → F → Option ℤ → Guard F → Guard F × SendState
  unfolding chat_state
  chat_send_state now created chat g =
      let (b, wait) = next_available g.global_writes now in
      if ltf now g.egress_paused_until
      then (g, paused)
      else chat_state now created chat wait (record g { global_writes = b })

  -- RestoreBackoff
  unfoldable pub restore_backoff : F → F → Option ℤ → F → Guard F → Guard F
  restore_backoff now created chat remaining g =
      if leb remaining zero then g else report_429 now created chat remaining g
