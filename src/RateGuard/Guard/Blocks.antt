-- ===== src/RateGuard/Guard/Blocks.antt =====
-- What a real 429 stops: Report429 of rateguard.go, then any calls before the pause is over.
pub mod Asleep
pub mod Again
pub mod Runs
use tg_session_gateway.Prelude.{
  ℤ, pos, negsuc, ◌≡◌, refl, sym, subst, ◌∙◌, inl, inr, Bool, true, false, if◌then◌else◌, Option,
  none, some, List, [], ◌∷◌, arith, find, find-put, int_has_eq, eq_ℤ_iff, Bool-cases, ◌=?◌, =?_refl,
}
use tg_session_gateway.Float64.{Float64, ltf, le-fmax_right, ltf_of_ltf_of_le}
use tg_session_gateway.RateGuard.Method.{Text, Kind, fast, read, write, method_kind}
use tg_session_gateway.RateGuard.Bucket.{Bucket, refill, spend, pause}
use tg_session_gateway.RateGuard.Bucket.Pause.{refill_paused}
use tg_session_gateway.RateGuard.Guard.{
  Guard, is_private, chat_bucket, set_chat, take_reads, take_paid, take_global, acquire_chat,
  acquire_write, acquire, try_acquire, report_429,
}
use tg_session_gateway.RateGuard.Guard.Laws.{admit_both, acquire_chat-admit_both}

pub record Call (F : Type 0) : Type 0 where
  pub now : F
  pub created : F
  pub method : Text
  pub chat : Option ℤ

module _ ⦃N : Float64⦄ where
  open N use {F, leb, zero, add}

  pub call : Call F → Guard F → Guard F × Bool
  call c g = try_acquire c.now c.created c.method c.chat g

  -- Calls in turn: the guard after them.
  pub after : List (Call F) → Guard F → Guard F
  after [] g = g
  after (c ∷ cs) g = after cs (call c g).0

  abbrev pub AllBefore : F → List (Call F) → Type 0
  AllBefore until [] = Unit {0}
  AllBefore until (c ∷ cs) = (ltf c.now until ≡ true) × AllBefore until cs

  -- Everything is refused while the egress of the bot is paused.
  pub egress_step :
      (until : F) (c : Call F) (g : Guard F)
      → leb until g.egress_paused_until ≡ true
      → ltf c.now until ≡ true
      → call c g ≡ (g, false)
  unfolding call try_acquire
  egress_step until c g h k = rw (ltf_of_ltf_of_le c.now until g.egress_paused_until k h)

  pub egress_after :
      (until : F) (cs : List (Call F)) (g : Guard F)
      → leb until g.egress_paused_until ≡ true
      → AllBefore until cs
      → after cs g ≡ g
  unfolding after
  egress_after until [] g h k = refl
  egress_after until (c ∷ cs) g h k =
      rw (egress_step until c g h k.0) (egress_after until cs g h k.1)

  -- After a 429 for no chat, every call that is made before now + retry_after is refused, the fast
  -- methods included, whatever calls came before it, and the guard stays as it is.
  pub call-report_429 :
      (now created retry_after : F) (g : Guard F) (cs : List (Call F)) (c : Call F)
      → AllBefore (add now retry_after) cs
      → ltf c.now (add now retry_after) ≡ true
      → let g' = report_429 now created none retry_after g in call c (after cs g') ≡ (g', false)
  unfolding report_429
  call-report_429 now created retry_after g cs c h k =
      let g' = report_429 now created none retry_after g in
      let late = le-fmax_right g.egress_paused_until (add now retry_after) in
      rw (egress_after (add now retry_after) cs g' late h)
        (egress_step (add now retry_after) c g' late k)

  pub lookup_chat : ℤ → Guard F → Option (Bucket F)
  lookup_chat chat g = if is_private chat then find chat g.private_chats else find chat g.groups

  pub lookup_chat-set_chat :
      (k j : ℤ) (b : Bucket F) (g : Guard F)
      → lookup_chat j (set_chat k b g) ≡ (if k =? j then some b else lookup_chat j g)
  unfolding lookup_chat set_chat
  lookup_chat-set_chat (pos n) (pos m) b g = find-put (pos n) (pos m) b g.private_chats
  lookup_chat-set_chat (negsuc n) (negsuc m) b g = find-put (negsuc n) (negsuc m) b g.groups
  lookup_chat-set_chat (pos n) (negsuc m) b g = refl
  lookup_chat-set_chat (negsuc n) (pos m) b g = refl

  pub chat_bucket-lookup_chat :
      (created : F) (chat : ℤ) (g : Guard F) (b : Bucket F)
      → lookup_chat chat g ≡ some b
      → chat_bucket created chat g ≡ b
  unfolding lookup_chat chat_bucket
  chat_bucket-lookup_chat created (pos n) g b h = rw h
  chat_bucket-lookup_chat created (negsuc n) g b h = rw h

  -- The chat's bucket is in its table, paused until `until` at least.
  pub IsPaused : F → ℤ → Guard F → Type 0
  IsPaused until chat g =
      (b : Bucket F) × (lookup_chat chat g ≡ some b) × (leb until b.paused_until ≡ true)

  admit_both_other :
      (now : F) (k j : ℤ) (b : Bucket F) (g : Guard F)
      → (k =? j) ≡ false
      → lookup_chat j (admit_both now k b g).0 ≡ lookup_chat j g
  unfolding admit_both set_chat lookup_chat
  admit_both_other now (pos n) (pos m) b g h =
      let r = refill b now in
      ground (
        arith,
        find-put (pos n) (pos m) (spend r) g.private_chats,
        find-put (pos n) (pos m) r g.private_chats,
      )
  admit_both_other now (negsuc n) (negsuc m) b g h =
      let r = refill b now in
      ground (
        arith,
        find-put (negsuc n) (negsuc m) (spend r) g.groups,
        find-put (negsuc n) (negsuc m) r g.groups,
      )
  admit_both_other now (pos n) (negsuc m) b g h = ground arith
  admit_both_other now (negsuc n) (pos m) b g h = ground arith

  admit_both_paused :
      (now : F) (chat : ℤ) (b : Bucket F) (g : Guard F)
      → ltf now b.paused_until ≡ true
      → admit_both now chat b g ≡ (set_chat chat (refill b now) g, false)
  unfolding admit_both
  admit_both_paused now chat b g h = rw (refill_paused b now h, h)

  pub report-IsPaused :
      (now created retry_after : F) (chat : ℤ) (g : Guard F)
      → IsPaused (add now retry_after) chat (report_429 now created (some chat) retry_after g)
  unfolding IsPaused report_429 pause
  report-IsPaused now created retry_after chat g =
      let b = chat_bucket created chat g in
      (
        pause retry_after now b,
        rw (lookup_chat-set_chat chat chat (pause retry_after now b) g, =?_refl chat),
        le-fmax_right b.paused_until (add now retry_after),
      )

  -- A write to the paused chat itself.
  IsPaused-same :
      (until : F) (chat : ℤ) (now created : F) (g : Guard F)
      → ltf now until ≡ true
      → IsPaused until chat g
      → IsPaused until chat (admit_both now chat (chat_bucket created chat g) g).0
        × ((admit_both now chat (chat_bucket created chat g) g).1 ≡ false)
  unfolding IsPaused
  IsPaused-same until chat now created g h (b, at, late) =
      let k = ltf_of_ltf_of_le now until b.paused_until h late in
      rw (chat_bucket-lookup_chat created chat g b at, admit_both_paused now chat b g k)
        (
          (
            refill b now,
            rw (lookup_chat-set_chat chat chat (refill b now) g, =?_refl chat),
            rw (refill_paused b now k) late,
          ),
          refl,
        )

  IsPaused-other :
      (until : F) (chat j : ℤ) (now created : F) (g : Guard F)
      → (j =? chat) ≡ false
      → IsPaused until chat g
      → IsPaused until chat (admit_both now j (chat_bucket created j g) g).0
  unfolding IsPaused
  IsPaused-other until chat j now created g e (b, at, late) =
      (b, admit_both_other now j chat (chat_bucket created j g) g e ∙ at, late)

  write_keeps :
      (until : F) (chat j : ℤ) (now created : F) (g : Guard F)
      → ltf now until ≡ true
      → IsPaused until chat g
      → IsPaused until chat (acquire_chat now j (chat_bucket created j g) g).0
  write_keeps until chat j now created g h p =
      rw (acquire_chat-admit_both now j (chat_bucket created j g) g)
        (elim (Bool-cases (j =? chat)) [
          | inl same ↦
              subst (λ k. IsPaused until chat (admit_both now k (chat_bucket created k g) g).0)
                (sym ((eq_ℤ_iff j chat).0 same)) (IsPaused-same until chat now created g h p).0
          | inr other ↦ IsPaused-other until chat j now created g other p
        ])

  pub IsPaused-tables :
      (until : F) (chat : ℤ) (g h : Guard F)
      → h.private_chats ≡ g.private_chats
      → h.groups ≡ g.groups
      → IsPaused until chat g
      → IsPaused until chat h
  unfolding IsPaused lookup_chat
  IsPaused-tables until chat g h p q (b, at, late) = (b, rw (p, q) at, late)

  acquire_keeps :
      (until : F) (chat : ℤ) (k : Kind) (now created : F) (target : Option ℤ) (g : Guard F)
      → ltf now until ≡ true
      → IsPaused until chat g
      → IsPaused until chat (acquire k now created target g).0
  unfolding acquire acquire_write take_reads take_paid take_global
  acquire_keeps until chat fast now created target g h p = p
  acquire_keeps until chat read now created target g h p =
      IsPaused-tables until chat g _ refl refl p
  acquire_keeps until chat write now created (some j) g h p =
      write_keeps until chat j now created g h p
  acquire_keeps until chat write now created none g h p =
      IsPaused-tables until chat g _ (ground arith) (ground arith) p

  pub call_keeps :
      (until : F) (chat : ℤ) (c : Call F) (g : Guard F)
      → ltf c.now until ≡ true
      → IsPaused until chat g
      → IsPaused until chat (call c g).0
  unfolding call try_acquire
  call_keeps until chat c g h p = elim (Bool-cases (ltf c.now g.egress_paused_until)) [
    | inl e ↦ rw e p
    | inr e ↦ rw e (acquire_keeps until chat (method_kind c.method) c.now c.created c.chat g h p)
  ]

  pub after_keeps :
      (until : F) (chat : ℤ) (cs : List (Call F)) (g : Guard F)
      → AllBefore until cs
      → IsPaused until chat g
      → IsPaused until chat (after cs g)
  unfolding after
  after_keeps until chat [] g h p = p
  after_keeps until chat (c ∷ cs) g h p =
      after_keeps until chat cs (call c g).0 h.1 (call_keeps until chat c g h.0 p)

  pub call_refused :
      (until : F) (chat : ℤ) (c : Call F) (g : Guard F)
      → ltf c.now until ≡ true
      → IsPaused until chat g
      → method_kind c.method ≡ write
      → c.chat ≡ some chat
      → (call c g).1 ≡ false
  unfolding call try_acquire acquire acquire_write
  call_refused until chat c g h p k e = elim (Bool-cases (ltf c.now g.egress_paused_until)) [
    | inl egress ↦ rw egress
    | inr open' ↦
        rw (open', k, e, acquire_chat-admit_both c.now chat (chat_bucket c.created chat g) g)
          (IsPaused-same until chat c.now c.created g h p).1
  ]

  -- After a 429 for a chat no write to that chat is admitted before now + retry_after, whatever
  -- calls, to that chat or to others, are made in between.
  pub chat-report_429 :
      (now created retry_after : F) (chat : ℤ) (g : Guard F) (cs : List (Call F)) (c : Call F)
      → AllBefore (add now retry_after) cs
      → ltf c.now (add now retry_after) ≡ true
      → method_kind c.method ≡ write
      → c.chat ≡ some chat
      → (call c (after cs (report_429 now created (some chat) retry_after g))).1 ≡ false
  chat-report_429 now created retry_after chat g cs c h k w e =
      call_refused (add now retry_after) chat c _ k
        (after_keeps (add now retry_after) chat cs _ h
          (report-IsPaused now created retry_after chat g))
        w e
