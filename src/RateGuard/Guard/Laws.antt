-- ===== src/RateGuard/Guard/Laws.antt =====
-- Admission is all or nothing: what TryAcquire of rateguard.go decides and what it charges.
use tg_session_gateway.Prelude.{
  ℤ, pos, negsuc, ◌≡◌, refl, ◌⊎◌, inl, inr, Bool, true, false, not, if◌then◌else◌, Option, none,
  some, arith, put-put, int_has_eq, Bool-cases,
}
use tg_session_gateway.Float64.{Float64, ltf}
use tg_session_gateway.RateGuard.Method.{Text, Kind, fast, read, write, method_kind}
use tg_session_gateway.RateGuard.Bucket.{Bucket, refill, is_blocked, spend, try_take}
use tg_session_gateway.RateGuard.Bucket.Laws.{refill-refill}
use tg_session_gateway.RateGuard.Guard.{
  Guard, chat_bucket, set_chat, take_reads, take_paid, take_global, charge_paid, charge_chat,
  charge_global, acquire_chat, acquire_write, acquire, try_acquire,
}

module _ ⦃N : Float64⦄ where
  open N use {F, leb, zero}

  abbrev pub admits : Bucket F → F → Bool
  admits b now = not (is_blocked (refill b now) now)

  pub try_take-admits :
      (b : Bucket F) (now : F)
      → try_take b now
        ≡ (if admits b now then (spend (refill b now), true) else (refill b now, false))
  unfolding try_take
  try_take-admits b now = ground arith

  set_chat-set_chat :
      (chat : ℤ) (b c : Bucket F) (g : Guard F)
      → set_chat chat b (set_chat chat c g) ≡ set_chat chat b g
  unfolding set_chat
  set_chat-set_chat chat b c g =
      ground (arith, put-put chat b c g.private_chats, put-put chat b c g.groups)

  set_chat-global :
      (chat : ℤ) (b w : Bucket F) (g : Guard F)
      → set_chat chat b (record g { global_writes = w })
        ≡ record (set_chat chat b g) { global_writes = w }
  unfolding set_chat
  set_chat-global chat b w g = ground arith

  set_chat-paid :
      (chat : ℤ) (b w : Bucket F) (g : Guard F)
      → set_chat chat b (record g { paid = w }) ≡ record (set_chat chat b g) { paid = w }
  unfolding set_chat
  set_chat-paid chat b w g = ground arith

  set_chat_fields :
      (chat : ℤ) (b : Bucket F) (g : Guard F)
      → ((set_chat chat b g).global_writes ≡ g.global_writes)
        × ((set_chat chat b g).paid ≡ g.paid)
        × ((set_chat chat b g).reads ≡ g.reads)
        × ((set_chat chat b g).paid_lane ≡ g.paid_lane)
  unfolding set_chat
  set_chat_fields chat b g = ground arith

  -- The bucket that a write is charged to besides the chat's, and what it becomes.
  abbrev pub lane : Guard F → Bucket F
  lane g = if g.paid_lane then g.paid else g.global_writes

  abbrev pub set_lane : Bucket F → Guard F → Guard F
  set_lane b g = if g.paid_lane then record g { paid = b } else record g { global_writes = b }

  -- The specification: both buckets admit and both are charged, or neither is.
  unfoldable pub admit_both : F → ℤ → Bucket F → Guard F → Guard F × Bool
  admit_both now chat b g =
      let r = refill b now in
      let l = refill (lane g) now in
      if admits b now
      then (if admits (lane g) now
          then (set_chat chat (spend r) (set_lane (spend l) g), true)
          else (set_chat chat r (set_lane l g), false))
      else (set_chat chat r g, false)

  charge_paid_lem :
      (now : F) (chat : ℤ) (r : Bucket F) (g : Guard F)
      → charge_paid now chat r g ≡ (
          if admits g.paid now
          then (set_chat chat (spend r) (record g { paid = spend (refill g.paid now) }), true)
          else (record g { paid = refill g.paid now }, false))
  unfolding charge_paid take_paid
  charge_paid_lem now chat r g = ground (arith, try_take-admits g.paid now)

  -- With the chat's bucket refilled the refund is never reached.
  charge_chat_lem :
      (now : F) (chat : ℤ) (r : Bucket F) (g : Guard F)
      → refill r now ≡ r
      → is_blocked r now ≡ false
      → charge_chat now chat r g ≡ (set_chat chat (spend r) g, true)
  unfolding charge_chat
  charge_chat_lem now chat r g e h = rw (e, h)

  charge_global_lem :
      (now : F) (chat : ℤ) (r : Bucket F) (g : Guard F)
      → refill r now ≡ r
      → is_blocked r now ≡ false
      → charge_global now chat r g ≡ (
          if admits g.global_writes now
          then (
            set_chat chat
                (spend r)
                (record g { global_writes = spend (refill g.global_writes now) }),
            true,
          )
          else (set_chat chat r (record g { global_writes = refill g.global_writes now }), false))
  unfolding charge_global take_global charge_chat set_chat
  charge_global_lem now (pos n) r g e h =
      ground
        (arith, try_take-admits g.global_writes now, put-put (pos n) (spend r) r g.private_chats)
  charge_global_lem now (negsuc n) r g e h =
      ground (arith, try_take-admits g.global_writes now, put-put (negsuc n) (spend r) r g.groups)

  pub acquire_chat-admit_both :
      (now : F) (chat : ℤ) (b : Bucket F) (g : Guard F)
      → acquire_chat now chat b g ≡ admit_both now chat b g
  unfolding acquire_chat admit_both set_chat
  acquire_chat-admit_both now (pos n) b g =
      let r = refill b now in
      let g' = set_chat (pos n) r g in
      ground (
        arith,
        charge_paid_lem now (pos n) r g',
        charge_global_lem now (pos n) r g',
        put-put (pos n) (spend r) r g.private_chats,
        put-put (pos n) r r g.private_chats,
        refill-refill b now,
      )
  acquire_chat-admit_both now (negsuc n) b g =
      let r = refill b now in
      let g' = set_chat (negsuc n) r g in
      ground (
        arith,
        charge_paid_lem now (negsuc n) r g',
        charge_global_lem now (negsuc n) r g',
        put-put (negsuc n) (spend r) r g.groups,
        put-put (negsuc n) r r g.groups,
        refill-refill b now,
      )

  -- While no egress pause is on, a write to a chat is admitted exactly when the chat's bucket and
  -- the bucket of its lane both admit; then each is charged one token, and else none is.
  pub try_acquire-admit_both :
      (now created : F) (method : Text) (chat : ℤ) (g : Guard F)
      → method_kind method ≡ write
      → ltf now g.egress_paused_until ≡ false
      → try_acquire now created method (some chat) g
        ≡ admit_both now chat (chat_bucket created chat g) g
  unfolding try_acquire acquire acquire_write
  try_acquire-admit_both now created method chat g k h =
      rw (h, k) (acquire_chat-admit_both now chat (chat_bucket created chat g) g)

  -- Refilled, at most: no token was spent.
  abbrev pub Uncharged : F → Bucket F → Bucket F → Type 0
  Uncharged now b c = (c ≡ b) ⊎ (c ≡ refill b now)

  -- The three buckets of the bot.
  pub record BotUncharged (now : F) (g h : Guard F) : Type 0 where
    pub global_writes : Uncharged now g.global_writes h.global_writes
    pub paid : Uncharged now g.paid h.paid
    pub reads : Uncharged now g.reads h.reads

  BotUncharged-same :
      (now : F) (g h : Guard F)
      → h.global_writes ≡ g.global_writes
      → h.paid ≡ g.paid
      → h.reads ≡ g.reads
      → BotUncharged now g h
  BotUncharged-same now g h p q r = record { global_writes = inl p; paid = inl q; reads = inl r }

  admit_both_refused :
      (now : F) (chat : ℤ) (b : Bucket F) (g : Guard F)
      → (admit_both now chat b g).1 ≡ false
      → BotUncharged now g (admit_both now chat b g).0
  unfolding admit_both set_chat
  admit_both_refused now (pos n) b g h = record {
    global_writes = ground arith;
    paid = ground arith;
    reads = ground arith;
  }
  admit_both_refused now (negsuc n) b g h = record {
    global_writes = ground arith;
    paid = ground arith;
    reads = ground arith;
  }

  try_take_refused :
      (b : Bucket F) (now : F) → (try_take b now).1 ≡ false → (try_take b now).0 ≡ refill b now
  unfolding try_take
  try_take_refused b now h = ground arith

  acquire_refused :
      (k : Kind) (now created : F) (chat : Option ℤ) (g : Guard F)
      → (acquire k now created chat g).1 ≡ false
      → BotUncharged now g (acquire k now created chat g).0
  unfolding acquire acquire_write take_reads take_paid take_global
  acquire_refused fast now created chat g h = cc
  acquire_refused read now created chat g h = record {
    global_writes = inl refl;
    paid = inl refl;
    reads = inr (try_take_refused g.reads now h);
  }
  acquire_refused write now created (some chat) g h =
      let e = acquire_chat-admit_both now chat (chat_bucket created chat g) g in
      rw e (admit_both_refused now chat (chat_bucket created chat g) g (rw e at h))
  acquire_refused write now created none g h = record {
    global_writes = ground (arith, try_take_refused g.global_writes now);
    paid = ground (arith, try_take_refused g.paid now);
    reads = ground arith;
  }

  -- A refused call, of any kind and to any chat, charges no bucket of the bot: not the global
  -- one, not the paid one and not that of the reads.
  pub try_acquire_refused :
      (now created : F) (method : Text) (chat : Option ℤ) (g : Guard F)
      → (try_acquire now created method chat g).1 ≡ false
      → BotUncharged now g (try_acquire now created method chat g).0
  unfolding try_acquire
  try_acquire_refused now created method chat g h =
      elim (Bool-cases (ltf now g.egress_paused_until)) [
        | inl e ↦ rw e (BotUncharged-same now g g refl refl refl)
        | inr e ↦ rw e (acquire_refused (method_kind method) now created chat g (rw e at h))
      ]
