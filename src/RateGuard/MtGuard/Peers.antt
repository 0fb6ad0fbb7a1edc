-- ===== src/RateGuard/MtGuard/Peers.antt =====
-- What TryAcquire and WaitTime of internal/rateguard/mt.go leave of the table of peers.
use tg_session_gateway.Prelude.{
  ℤ, ◌≡◌, refl, ◌∙◌, ap, inl, inr, Bool, if◌then◌else◌, Option, none, some, arith, find, find-put,
  int_has_eq, eq_ℤ_iff, ◌=?◌, Bool-cases,
}
use tg_session_gateway.Float64.{Float64, ltf}
use tg_session_gateway.RateGuard.Method.{
  Text, Kind, fast, read, write, method_kind, contains, to_lower,
}
use tg_session_gateway.RateGuard.Bucket.{Bucket, refill, spend, refund, next_available}
use tg_session_gateway.RateGuard.MtGuard.{
  MtGuard, PeerBackoff, silent_methods, chat_bucket, set_chat, or_no_backoff, peer_state, set_peer,
  take_reads, take_silent, take_paid, take_global, charge_paid, charge_chat, charge_global,
  acquire_chat, acquire_write, acquire, try_egress, try_acquire, wait_kind, wait_time,
}

module _ ⦃N : Float64⦄ where
  open N use {F, leb, zero, add, sub}

  pub set_peer-peer_state :
      (peer j : ℤ) (pb : PeerBackoff F) (g : MtGuard F)
      → peer_state j (set_peer peer pb g) ≡ (if peer =? j then pb else peer_state j g)
  unfolding peer_state set_peer
  set_peer-peer_state peer j pb g = ground (arith, find-put peer j pb g.peer_backoffs)

  pub set_chat-peers :
      (chat : ℤ) (b : Bucket F) (g : MtGuard F)
      → (set_chat chat b g).peer_backoffs ≡ g.peer_backoffs
  unfolding set_chat
  set_chat-peers chat b g = ground arith

  takes-peers :
      (now : F) (g : MtGuard F)
      → ((take_reads now g).0.peer_backoffs ≡ g.peer_backoffs)
        × ((take_silent now g).0.peer_backoffs ≡ g.peer_backoffs)
        × ((take_paid now g).0.peer_backoffs ≡ g.peer_backoffs)
        × ((take_global now g).0.peer_backoffs ≡ g.peer_backoffs)
  unfolding take_reads take_silent take_paid take_global
  takes-peers now g = ground arith

  charge_paid-peers :
      (now : F) (chat : ℤ) (b : Bucket F) (g : MtGuard F)
      → (charge_paid now chat b g).0.peer_backoffs ≡ g.peer_backoffs
  unfolding charge_paid
  charge_paid-peers now chat b g =
      ground (arith, takes-peers now g, set_chat-peers chat (spend b) (take_paid now g).0)

  charge_chat-peers :
      (now : F) (chat : ℤ) (b : Bucket F) (g : MtGuard F)
      → (charge_chat now chat b g).0.peer_backoffs ≡ g.peer_backoffs
  unfolding charge_chat
  charge_chat-peers now chat b g = ground (
    arith,
    set_chat-peers chat (spend (refill b now)) g,
    set_chat-peers chat (refill b now) (record g { global_writes = refund g.global_writes }),
  )

  charge_global-peers :
      (now : F) (chat : ℤ) (b : Bucket F) (g : MtGuard F)
      → (charge_global now chat b g).0.peer_backoffs ≡ g.peer_backoffs
  unfolding charge_global
  charge_global-peers now chat b g =
      ground (arith, takes-peers now g, charge_chat-peers now chat b (take_global now g).0)

  acquire_chat-peers :
      (now : F) (chat : ℤ) (b : Bucket F) (g : MtGuard F)
      → (acquire_chat now chat b g).0.peer_backoffs ≡ g.peer_backoffs
  unfolding acquire_chat
  acquire_chat-peers now chat b g =
      let g' = set_chat chat (refill b now) g in
      ground (
        arith,
        set_chat-peers chat (refill b now) g,
        charge_paid-peers now chat (refill b now) g',
        charge_global-peers now chat (refill b now) g',
      )

  acquire-peers :
      (kind : Kind) (silent : Bool) (now created : F) (chat : Option ℤ) (g : MtGuard F)
      → (acquire kind silent now created chat g).0.peer_backoffs ≡ g.peer_backoffs
  unfolding acquire acquire_write
  acquire-peers fast silent now created chat g = refl
  acquire-peers read silent now created chat g = ground (arith, takes-peers now g)
  acquire-peers write silent now created none g = ground (arith, takes-peers now g)
  acquire-peers write silent now created (some chat) g =
      ground (arith, takes-peers now g, acquire_chat-peers now chat (chat_bucket created chat g) g)

  try_egress-peers :
      (now created : F) (method : Text) (chat : Option ℤ) (g : MtGuard F)
      → (try_egress now created method chat g).0.peer_backoffs ≡ g.peer_backoffs
  unfolding try_egress
  try_egress-peers now created method chat g = ground (
    arith,
    acquire-peers (method_kind method) (contains silent_methods (to_lower method)) now created chat
        g,
  )

  wait_kind-peers :
      (kind : Kind) (now created : F) (chat : Option ℤ) (wait : F) (g : MtGuard F)
      → (wait_kind kind now created chat wait g).0.peer_backoffs ≡ g.peer_backoffs
  unfolding wait_kind
  wait_kind-peers fast now created chat wait g = refl
  wait_kind-peers read now created chat wait g = refl
  wait_kind-peers write now created none wait g = refl
  wait_kind-peers write now created (some chat) wait g =
      let g' = record g { global_writes = (next_available g.global_writes now).0 } in
      set_chat-peers chat (next_available (chat_bucket created chat g') now).0 g'

  -- Equal tables have equal entries.
  pub peer_state_of_peers :
      (j : ℤ) (g h : MtGuard F)
      → g.peer_backoffs ≡ h.peer_backoffs
      → peer_state j g ≡ peer_state j h
  unfolding peer_state
  peer_state_of_peers j g h e = ap (λ t. or_no_backoff (find j t)) e

  -- To enter a peer with what its pointer holds changes no peer.
  enter-peer_state :
      (peer j : ℤ) (g : MtGuard F)
      → peer_state j (set_peer peer (peer_state peer g) g) ≡ peer_state j g
  enter-peer_state peer j g =
      ground (arith, set_peer-peer_state peer j (peer_state peer g) g, eq_ℤ_iff peer j)

  pub try_acquire-peer_state :
      (j : ℤ) (now created : F) (method : Text) (chat : Option ℤ) (g : MtGuard F)
      → peer_state j (try_acquire now created method chat g).0 ≡ peer_state j g
  unfolding try_acquire
  try_acquire-peer_state j now created method none g =
      peer_state_of_peers j _ _ (try_egress-peers now created method none g)
  try_acquire-peer_state j now created method (some chat) g =
      let g' = set_peer chat (peer_state chat g) g in
      elim (Bool-cases (ltf now (peer_state chat g).paused_until)) [
        | inl e ↦ rw e (enter-peer_state chat j g)
        | inr e ↦ rw e (
            peer_state_of_peers j _ g' (try_egress-peers now created method (some chat) g')
            ∙ enter-peer_state chat j g)
      ]

  pub wait_time-peer_state :
      (j : ℤ) (now created : F) (method : Text) (chat : Option ℤ) (g : MtGuard F)
      → peer_state j (wait_time now created method chat g).0 ≡ peer_state j g
  unfolding wait_time
  wait_time-peer_state j now created method none g =
      peer_state_of_peers j _ _ (wait_kind-peers (method_kind method) now created none _ g)
  wait_time-peer_state j now created method (some chat) g =
      let g' = set_peer chat (peer_state chat g) g in
      peer_state_of_peers j _ g' (wait_kind-peers (method_kind method) now created (some chat) _ g')
      ∙ enter-peer_state chat j g
