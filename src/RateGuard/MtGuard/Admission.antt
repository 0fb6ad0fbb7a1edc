-- ===== src/RateGuard/MtGuard/Admission.antt =====
-- Admission is all or nothing: what TryAcquire of internal/rateguard/mt.go decides and what it
-- charges.
use tg_session_gateway.Prelude.{
  ℤ, ◌≡◌, refl, Bool, true, false, if◌then◌else◌, some, arith, put-put, int_has_eq, ◌∙◌, ap,
}
use tg_session_gateway.Float64.{Float64, ltf}
use tg_session_gateway.RateGuard.Method.{Text, write, method_kind, contains, to_lower}
use tg_session_gateway.RateGuard.Bucket.{Bucket, refill, is_blocked, spend}
use tg_session_gateway.RateGuard.Bucket.Laws.{refill-refill}
use tg_session_gateway.RateGuard.Guard.Laws.{admits, try_take-admits}
use tg_session_gateway.RateGuard.MtGuard.{
  MtGuard, PeerBackoff, silent_methods, chat_bucket, set_chat, peer_state, set_peer, take_paid,
  take_global, charge_paid, charge_chat, charge_global, acquire_chat, acquire_write, acquire,
  try_egress, try_acquire,
}

module _ ⦃N : Float64⦄ where
  open N use {F, leb, zero}

  set_chat-set_chat :
      (chat : ℤ) (b c : Bucket F) (g : MtGuard F)
      → set_chat chat b (set_chat chat c g) ≡ set_chat chat b g
  unfolding set_chat
  set_chat-set_chat chat b c g =
      ground (arith, put-put chat b c g.private_chats, put-put chat b c g.groups)

  set_chat-global :
      (chat : ℤ) (b c w : Bucket F) (g : MtGuard F)
      → set_chat chat b (record (set_chat chat c g) { global_writes = w })
        ≡ set_chat chat b (record g { global_writes = w })
  unfolding set_chat
  set_chat-global chat b c w g =
      ground (arith, put-put chat b c g.private_chats, put-put chat b c g.groups)

  set_chat-paid :
      (chat : ℤ) (b c w : Bucket F) (g : MtGuard F)
      → set_chat chat b (record (set_chat chat c g) { paid = w })
        ≡ set_chat chat b (record g { paid = w })
  unfolding set_chat
  set_chat-paid chat b c w g =
      ground (arith, put-put chat b c g.private_chats, put-put chat b c g.groups)

  record-set_chat :
      (chat : ℤ) (b w : Bucket F) (g : MtGuard F)
      → (record (set_chat chat b g) { global_writes = w }
          ≡ set_chat chat b (record g { global_writes = w }))
        × (record (set_chat chat b g) { paid = w } ≡ set_chat chat b (record g { paid = w }))
  unfolding set_chat
  record-set_chat chat b w g = ground arith

  set_chat_fields :
      (chat : ℤ) (b : Bucket F) (g : MtGuard F)
      → ((set_chat chat b g).global_writes ≡ g.global_writes)
        × ((set_chat chat b g).paid ≡ g.paid)
        × ((set_chat chat b g).paid_lane ≡ g.paid_lane)
  unfolding set_chat
  set_chat_fields chat b g = ground arith

  -- The specification: the chat's bucket and the bucket of the lane both admit and are both charged,
  -- or neither is.
  unfoldable pub admit_both : F → ℤ → Bucket F → MtGuard F → MtGuard F × Bool
  admit_both now chat b g =
      let r = refill b now in
      let l = refill (if g.paid_lane then g.paid else g.global_writes) now in
      let spent =
        if g.paid_lane then record g { paid = spend l } else record g { global_writes = spend l } in
      let kept = if g.paid_lane then record g { paid = l } else record g { global_writes = l } in
      if admits b now
      then (if admits (if g.paid_lane then g.paid else g.global_writes) now
          then (set_chat chat (spend r) spent, true)
          else (set_chat chat r kept, false))
      else (set_chat chat r g, false)

  charge_chat_lem :
      (now : F) (chat : ℤ) (r : Bucket F) (g : MtGuard F)
      → refill r now ≡ r
      → is_blocked r now ≡ false
      → charge_chat now chat r g ≡ (set_chat chat (spend r) g, true)
  unfolding charge_chat
  charge_chat_lem now chat r g e h = rw (e, h)

  charge_global_lem :
      (now : F) (chat : ℤ) (r : Bucket F) (g : MtGuard F)
      → refill r now ≡ r
      → is_blocked r now ≡ false
      → charge_global now chat r g ≡ (
          if admits g.global_writes now
          then (
            set_chat chat
                (spend r)
                (record g { global_writes = spend (refill g.global_writes now) }),
            true,
          )
          else (record g { global_writes = refill g.global_writes now }, false))
  unfolding charge_global take_global
  charge_global_lem now chat r g e h = ground (
    arith,
    try_take-admits g.global_writes now,
    charge_chat_lem now chat r (record g { global_writes = spend (refill g.global_writes now) }) e
        h,
  )

  charge_paid_lem :
      (now : F) (chat : ℤ) (r : Bucket F) (g : MtGuard F)
      → charge_paid now chat r g ≡ (
          if admits g.paid now
          then (set_chat chat (spend r) (record g { paid = spend (refill g.paid now) }), true)
          else (record g { paid = refill g.paid now }, false))
  unfolding charge_paid take_paid
  charge_paid_lem now chat r g = ground (arith, try_take-admits g.paid now)

  pub acquire_chat-admit_both :
      (now : F) (chat : ℤ) (b : Bucket F) (g : MtGuard F)
      → acquire_chat now chat b g ≡ admit_both now chat b g
  unfolding acquire_chat admit_both
  acquire_chat-admit_both now chat b g =
      let r = refill b now in
      let g' = set_chat chat r g in
      ground (
        arith,
        set_chat_fields chat r g,
        charge_global_lem now chat r g' (refill-refill b now),
        charge_paid_lem now chat r g',
        set_chat-global chat (spend r) r (spend (refill g.global_writes now)) g,
        set_chat-paid chat (spend r) r (spend (refill g.paid now)) g,
        record-set_chat chat r (refill g.global_writes now) g,
        record-set_chat chat r (refill g.paid now) g,
      )

  chat_bucket-set_peer :
      (created : F) (chat : ℤ) (g : MtGuard F)
      → chat_bucket created chat (set_peer chat (peer_state chat g) g) ≡ chat_bucket created chat g
  unfolding chat_bucket set_peer
  chat_bucket-set_peer created chat g = refl

  set_peer-egress :
      (peer : ℤ) (pb : PeerBackoff F) (g : MtGuard F)
      → (set_peer peer pb g).egress_paused_until ≡ g.egress_paused_until
  unfolding set_peer
  set_peer-egress peer pb g = refl

  try_egress_write :
      (now created : F) (method : Text) (chat : ℤ) (g : MtGuard F)
      → method_kind method ≡ write
      → contains silent_methods (to_lower method) ≡ false
      → ltf now g.egress_paused_until ≡ false
      → try_egress now created method (some chat) g
        ≡ acquire_chat now chat (chat_bucket created chat g) g
  unfolding try_egress acquire acquire_write
  try_egress_write now created method chat g k s h = rw (h, k, s) refl

  -- While neither the peer nor the egress is paused, a write to a chat that is not one of the silent
  -- methods is admitted exactly when the chat's bucket and the bucket of its lane both admit; then
  -- each is charged one token, and else none is. The peer is entered into the table.
  pub try_acquire-charge_both :
      (now created : F) (method : Text) (chat : ℤ) (g : MtGuard F)
      → method_kind method ≡ write
      → contains silent_methods (to_lower method) ≡ false
      → ltf now (peer_state chat g).paused_until ≡ false
      → ltf now g.egress_paused_until ≡ false
      → try_acquire now created method (some chat) g
        ≡ admit_both now chat (chat_bucket created chat g) (set_peer chat (peer_state chat g) g)
  unfolding try_acquire
  try_acquire-charge_both now created method chat g k s p h =
      let pb = peer_state chat g in
      let g' = set_peer chat pb g in
      rw p (
        try_egress_write now created method chat g' k s
          (ap (ltf now) (set_peer-egress chat pb g) ∙ h)
        ∙ ap (λ b. acquire_chat now chat b g') (chat_bucket-set_peer created chat g)
        ∙ acquire_chat-admit_both now chat (chat_bucket created chat g) g')
