-- ===== src/RateGuard/MtGuard.antt =====
-- MTGuard of internal/rateguard/mt.go: the pacing state of one MTProto session. A peer that has
-- brought on a FLOOD_WAIT is backed off for longer each time. ParseFloodWait's regular expressions
-- are not modelled: a report takes what they parsed. Clock readings are arguments, as for the Guard.
pub mod Admission
pub mod Peers
pub mod Flood
use tg_session_gateway.Prelude.{
  ℤ, pos, ◌+ℤ◌, ◌-ℤ◌, Bool, true, false, not, ◌&&◌, if◌then◌else◌, Option, none, some, List, [],
  ◌∷◌, find, put, remove, int_has_eq,
}
use tg_session_gateway.Float64.{Float64, ltf, fmax, fmin}
use tg_session_gateway.RateGuard.Method.{
  Text, text, to_lower, contains, Kind, fast, read, write, method_kind,
}
use tg_session_gateway.RateGuard.Bucket.{
  Bucket, new_bucket, refill, is_blocked, spend, refund, try_take, next_available, pause,
}
use tg_session_gateway.RateGuard.Guard.{RateConfig, Buckets, max_ℤ, is_private, or_new}

-- MTProtoRate of internal/config/config.go.
pub record MtRate (F : Type 0) : Type 0 where
  pub flood_backoff_base : F
  pub peer_flood_cooldown : F
  pub slowmode_respect : Bool
  pub silent_rate : F

pub data FloodType : Type 0 where
  flood_wait flood_premium slowmode peer_flood : FloodType

pub record FloodInfo : Type 0 where
  pub type : FloodType
  pub wait : ℤ

pub record PeerBackoff (F : Type 0) : Type 0 where
  pub offences : ℤ
  pub last_wait : F
  pub paused_until : F

pub record MtGuard (F : Type 0) : Type 0 where
  pub faq : RateConfig F
  pub mt : MtRate F
  pub private_chats : Buckets F
  pub groups : Buckets F
  pub global_writes : Bucket F
  pub reads : Bucket F
  pub silent : Bucket F
  pub paid : Bucket F
  pub paid_enabled : Bool
  pub egress_paused_until : F
  pub paid_lane : Bool
  pub peer_backoffs : List (ℤ × PeerBackoff F)

abbrev pub silent_methods : List Text
silent_methods =
    text "resolve_username" ∷ text "get_participants" ∷ text "join_channel" ∷ text "leave_chat" ∷ []

module _ ⦃N : Float64⦄ where
  open N use {F, leb, zero, add, sub, mul, pow, of_int, to_int}

  -- NewMTGuard; each NewBucket reads the clock, here once.
  unfoldable pub new_guard : RateConfig F → MtRate F → F → MtGuard F
  new_guard faq mt now = record {
    faq = faq;
    mt = mt;
    private_chats = [];
    groups = [];
    global_writes = new_bucket faq.global_rate faq.global_burst now;
    reads = new_bucket faq.read_rate (max_ℤ (pos 10) (to_int faq.read_rate)) now;
    silent = new_bucket mt.silent_rate (max_ℤ (pos 5) (to_int mt.silent_rate)) now;
    paid = new_bucket faq.paid_rate (to_int faq.paid_rate) now;
    paid_enabled = false;
    egress_paused_until = zero;
    paid_lane = false;
    peer_backoffs = [];
  }

  unfoldable pub chat_bucket : F → ℤ → MtGuard F → Bucket F
  chat_bucket created chat g =
      if is_private chat
      then or_new created g.faq.private_rate g.faq.private_burst (find chat g.private_chats)
      else or_new created g.faq.group_rate g.faq.group_burst (find chat g.groups)

  unfoldable pub set_chat : ℤ → Bucket F → MtGuard F → MtGuard F
  set_chat chat b g =
      if is_private chat
      then record g { private_chats = put chat b g.private_chats }
      else record g { groups = put chat b g.groups }

  abbrev pub no_backoff : PeerBackoff F
  no_backoff = record { offences = pos 0; last_wait = zero; paused_until = zero }

  abbrev pub or_no_backoff : Option (PeerBackoff F) → PeerBackoff F
  or_no_backoff none = no_backoff
  or_no_backoff (some pb) = pb

  -- peerState: what the pointer in the table holds.
  unfoldable pub peer_state : ℤ → MtGuard F → PeerBackoff F
  peer_state peer g = or_no_backoff (find peer g.peer_backoffs)

  unfoldable pub set_peer : ℤ → PeerBackoff F → MtGuard F → MtGuard F
  set_peer peer pb g = record g { peer_backoffs = put peer pb g.peer_backoffs }

  unfoldable pub enter_paid_lane : Bool → MtGuard F → MtGuard F
  enter_paid_lane allowed g = record g { paid_lane = allowed && g.paid_enabled }

  unfoldable pub exit_paid_lane : MtGuard F → MtGuard F
  exit_paid_lane g = record g { paid_lane = false }

  unfoldable pub take_reads : F → MtGuard F → MtGuard F × Bool
  take_reads now g = let (b, got) = try_take g.reads now in (record g { reads = b }, got)

  unfoldable pub take_silent : F → MtGuard F → MtGuard F × Bool
  take_silent now g = let (b, got) = try_take g.silent now in (record g { silent = b }, got)

  unfoldable pub take_paid : F → MtGuard F → MtGuard F × Bool
  take_paid now g = let (b, got) = try_take g.paid now in (record g { paid = b }, got)

  unfoldable pub take_global : F → MtGuard F → MtGuard F × Bool
  take_global now g =
      let (b, got) = try_take g.global_writes now in (record g { global_writes = b }, got)

  unfoldable pub charge_paid : F → ℤ → Bucket F → MtGuard F → MtGuard F × Bool
  charge_paid now chat b g =
      let (g', got) = take_paid now g in
      if got then (set_chat chat (spend b) g', true) else (g', false)

  -- After the global bucket: the chat's bucket once more.
  unfoldable pub charge_chat : F → ℤ → Bucket F → MtGuard F → MtGuard F × Bool
  charge_chat now chat b g =
      let b' = refill b now in
      if is_blocked b' now
      then (set_chat chat b' (record g { global_writes = refund g.global_writes }), false)
      else (set_chat chat (spend b') g, true)

  unfoldable pub charge_global : F → ℤ → Bucket F → MtGuard F → MtGuard F × Bool
  charge_global now chat b g =
      let (g', got) = take_global now g in if got then charge_chat now chat b g' else (g', false)

  unfoldable pub acquire_chat : F → ℤ → Bucket F → MtGuard F → MtGuard F × Bool
  acquire_chat now chat b g =
      let b' = refill b now in
      let g' = set_chat chat b' g in
      if is_blocked b' now
      then (g', false)
      else if g.paid_lane
      then charge_paid now chat b' g'
      else charge_global now chat b' g'

  unfoldable pub acquire_write : F → F → Option ℤ → MtGuard F → MtGuard F × Bool
  acquire_write now created none g = if g.paid_lane then take_paid now g else take_global now g
  acquire_write now created (some chat) g = acquire_chat now chat (chat_bucket created chat g) g

  unfoldable pub acquire : Kind → Bool → F → F → Option ℤ → MtGuard F → MtGuard F × Bool
  acquire fast silent now created chat g = (g, true)
  acquire read silent now created chat g = take_reads now g
  acquire write silent now created chat g =
      if silent then take_silent now g else acquire_write now created chat g

  -- TryAcquire from the test of the egress pause on.
  unfoldable pub try_egress : F → F → Text → Option ℤ → MtGuard F → MtGuard F × Bool
  try_egress now created method chat g =
      if ltf now g.egress_paused_until
      then (g, false)
      else acquire (method_kind method) (contains silent_methods (to_lower method)) now created chat
          g

  -- TryAcquire. peerState enters the peer into the table.
  unfoldable pub try_acquire : F → F → Text → Option ℤ → MtGuard F → MtGuard F × Bool
  try_acquire now created method none g = try_egress now created method none g
  try_acquire now created method (some chat) g =
      let pb = peer_state chat g in
      let g' = set_peer chat pb g in
      if ltf now pb.paused_until then (g', false) else try_egress now created method (some chat) g'

  -- wait * base^(offences - 1), an hour at most.
  abbrev pub adaptive : ℤ → ℤ → MtGuard F → F
  adaptive wait offences g =
      fmin (mul (of_int wait) (pow g.mt.flood_backoff_base (of_int (offences -ℤ pos 1))))
        (of_int (pos 3600))

  -- ReportFloodWait on a peer_flood.
  unfoldable pub report_peer_flood : F → Option ℤ → MtGuard F → MtGuard F
  report_peer_flood now none g = g
  report_peer_flood now (some chat) g =
      let pb = peer_state chat g in
      set_peer chat
        (record pb {
          offences = pb.offences +ℤ pos 1;
          paused_until = add now g.mt.peer_flood_cooldown;
        })
        g

  -- ReportFloodWait on any other flood that counts.
  unfoldable pub report_flood : F → F → ℤ → Option ℤ → MtGuard F → MtGuard F
  report_flood now created wait none g = record g {
    egress_paused_until = fmax g.egress_paused_until (add now (of_int wait));
    global_writes = pause (of_int wait) now g.global_writes;
  }
  report_flood now created wait (some chat) g =
      let pb = peer_state chat g in
      let offences = pb.offences +ℤ pos 1 in
      let seconds = adaptive wait offences g in
      let g' =
        set_peer chat
          (record { offences = offences; last_wait = of_int wait; paused_until = add now seconds })
          g in
      set_chat chat (pause seconds now (chat_bucket created chat g')) g'

  -- ReportFloodWait by the type of the flood.
  unfoldable pub report_info : F → F → FloodType → ℤ → Option ℤ → MtGuard F → MtGuard F
  report_info now created peer_flood wait chat g = report_peer_flood now chat g
  report_info now created slowmode wait chat g =
      if not g.mt.slowmode_respect then g else report_flood now created wait chat g
  report_info now created flood_wait wait chat g = report_flood now created wait chat g
  report_info now created flood_premium wait chat g = report_flood now created wait chat g

  -- ReportFloodWait, on what ParseFloodWait found in the error text.
  unfoldable pub report_flood_wait : F → F → Option FloodInfo → Option ℤ → MtGuard F → MtGuard F
  report_flood_wait now created none chat g = g
  report_flood_wait now created (some info) chat g =
      report_info now created info.type info.wait chat g

  -- AdaptiveWait
  unfoldable pub adaptive_wait : Option FloodInfo → Option ℤ → MtGuard F → MtGuard F × ℤ
  adaptive_wait none chat g = (g, pos 0)
  adaptive_wait (some info) none g = (g, info.wait)
  adaptive_wait (some info) (some chat) g =
      let pb = peer_state chat g in (set_peer chat pb g, to_int (adaptive info.wait pb.offences g))

  -- ClearPeerBackoff
  unfoldable pub clear_peer_backoff : ℤ → MtGuard F → MtGuard F
  clear_peer_backoff chat g = record g { peer_backoffs = remove chat g.peer_backoffs }

  -- The waits of the kind's buckets, on top of `wait`.
  unfoldable pub wait_kind : Kind → F → F → Option ℤ → F → MtGuard F → MtGuard F × F
  wait_kind fast now created chat wait g = (g, fmax zero wait)
  wait_kind read now created chat wait g =
      let (b, w) = next_available g.reads now in (record g { reads = b }, fmax wait w)
  wait_kind write now created none wait g =
      let (b, w) = next_available g.global_writes now in
      (record g { global_writes = b }, fmax zero (fmax wait w))
  wait_kind write now created (some chat) wait g =
      let (b, w) = next_available g.global_writes now in
      let g' = record g { global_writes = b } in
      let (c, v) = next_available (chat_bucket created chat g') now in
      (set_chat chat c g', fmax zero (fmax (fmax wait w) v))

  -- WaitTime
  unfoldable pub wait_time : F → F → Text → Option ℤ → MtGuard F → MtGuard F × F
  wait_time now created method none g =
      wait_kind (method_kind method) now created none (fmax zero (sub g.egress_paused_until now)) g
  wait_time now created method (some chat) g =
      let pb = peer_state chat g in
      wait_kind (method_kind method) now created (some chat)
        (fmax (fmax zero (sub g.egress_paused_until now)) (sub pb.paused_until now))
        (set_peer chat pb g)
