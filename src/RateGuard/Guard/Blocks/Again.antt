-- ===== src/RateGuard/Guard/Blocks/Again.antt =====
-- A pause of a chat in rateguard.go against the pauses that are reported or restored after it.
use tg_session_gateway.Prelude.{
  ℤ, ◌≡◌, refl, sym, subst, true, false, Bool-cases, inl, inr, Option, none, some, string_has_eq,
  int_has_eq, ◌=?◌, eq_ℤ_iff, =?_refl, if_both, arith,
}
use tg_session_gateway.Float64.{Float64, ltf, fmax, le-fmax_left}
use tg_session_gateway.RateGuard.Bucket.{pause}
use tg_session_gateway.RateGuard.Guard.{Guard, chat_bucket, report_429, restore_backoff}
use tg_session_gateway.RateGuard.Guard.Blocks.{
  chat_bucket-lookup_chat, lookup_chat-set_chat, IsPaused, IsPaused-tables, report-IsPaused,
}

module _ ⦃N : Float64⦄ where
  open N use {F, leb, zero, add, sub, leb_refl, leb_trans, add_le, sub_mono, sub_pos}

  pub IsPaused-earlier :
      (a b : F) (chat : ℤ) (g : Guard F) → leb a b ≡ true → IsPaused b chat g → IsPaused a chat g
  unfolding IsPaused
  IsPaused-earlier a b chat g h (x, at, late) = (x, at, leb_trans a b x.paused_until h late)

  report_same :
      (until : F) (chat : ℤ) (now created retry : F) (g : Guard F)
      → IsPaused until chat g
      → IsPaused until chat (report_429 now created (some chat) retry g)
  unfolding IsPaused report_429 pause
  report_same until chat now created retry g (b, at, late) =
      rw (chat_bucket-lookup_chat created chat g b at) (
        pause retry now b,
        rw (lookup_chat-set_chat chat chat (pause retry now b) g, =?_refl chat),
        leb_trans until b.paused_until (fmax b.paused_until (add now retry)) late
            (le-fmax_left b.paused_until (add now retry)),
      )

  report_other :
      (until : F) (chat j : ℤ) (now created retry : F) (g : Guard F)
      → (j =? chat) ≡ false
      → IsPaused until chat g
      → IsPaused until chat (report_429 now created (some j) retry g)
  unfolding IsPaused report_429
  report_other until chat j now created retry g e (b, at, late) = (
    b,
    rw (lookup_chat-set_chat j chat (pause retry now (chat_bucket created j g)) g, e) at,
    late,
  )

  pub report_429-keeps :
      (until : F) (chat : ℤ) (target : Option ℤ) (now created retry : F) (g : Guard F)
      → IsPaused until chat g
      → IsPaused until chat (report_429 now created target retry g)
  unfolding report_429
  report_429-keeps until chat none now created retry g p =
      IsPaused-tables until chat g _ refl refl p
  report_429-keeps until chat (some j) now created retry g p = elim (Bool-cases (j =? chat)) [
    | inl same ↦
        subst (λ k. IsPaused until chat (report_429 now created (some k) retry g))
          (sym ((eq_ℤ_iff j chat).0 same)) (report_same until chat now created retry g p)
    | inr other ↦ report_other until chat j now created retry g other p
  ]

  pub restore_backoff-keeps :
      (until : F) (chat : ℤ) (target : Option ℤ) (now created remaining : F) (g : Guard F)
      → IsPaused until chat g
      → IsPaused until chat (restore_backoff now created target remaining g)
  unfolding restore_backoff
  restore_backoff-keeps until chat target now created remaining g p =
      if_both (IsPaused until chat) (leb remaining zero) _ _ p
        (report_429-keeps until chat target now created remaining g p)

  -- A saved time that is not over by the wall clock pauses the chat for what is left of it.
  pub restore_backoff-IsPaused :
      (until saved wall : F) (chat : ℤ) (now created : F) (g : Guard F)
      → leb until saved ≡ true
      → ltf wall until ≡ true
      → IsPaused
          (add now (sub until wall))
          chat
          (restore_backoff now created (some chat) (sub saved wall) g)
  unfolding restore_backoff
  restore_backoff-IsPaused until saved wall chat now created g h k =
      let left : leb (sub saved wall) zero ≡ false =
        sub_pos saved wall (ground (arith, k, h, leb_trans until saved wall)) in
      rw left (
        IsPaused-earlier (add now (sub until wall)) (add now (sub saved wall)) chat _
          (add_le now now (sub until wall) (sub saved wall) (leb_refl now)
            (sub_mono until saved wall h))
          (report-IsPaused now created (sub saved wall) chat g))
