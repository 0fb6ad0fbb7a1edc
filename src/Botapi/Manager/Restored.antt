-- ===== src/Botapi/Manager/Restored.antt =====
-- A pause that a 429 left in the table outlives the process: Attach of internal/botapi/session.go
-- over LoadBackoffs of internal/store/gateway.go.
use tg_session_gateway.Prelude.{
  ℤ, pos, eq_ℤ, ◌≡◌, sym, Bool, true, false, ◌&&◌, Bool-cases, inl, inr, Option, none, some, List,
  [], ◌∷◌, String, string_has_eq, int_has_eq, ◌=?◌, eq_ℤ_iff, find-put_self, subst, arith,
}
use tg_session_gateway.Float64.{Float64, ltf}
use tg_session_gateway.RateGuard.Guard.{RateConfig, Guard, new_guard, restore_backoff}
use tg_session_gateway.RateGuard.Guard.Blocks.{IsPaused}
use tg_session_gateway.RateGuard.Guard.Blocks.Again.{
  restore_backoff-keeps, restore_backoff-IsPaused,
}
use tg_session_gateway.Store.Gateway.{save_backoff, load_backoffs}
use tg_session_gateway.Store.Gateway.Backoffs.{is_paused, load_backoffs-save_backoff}
use tg_session_gateway.Store.Queue.{Queue}
use tg_session_gateway.Botapi.Session.{Session}
use tg_session_gateway.Botapi.Manager.{
  Manager, get, Readings, chat_of, restore_each, Engine, restore_backoffs, new_session, attach_new,
  attach_found, attach,
}

module _ ⦃N : Float64⦄ where
  open N use {F, leb, add, sub}

  restore_each-keeps :
      (until : F) (chat : ℤ) (c : Readings) (rows : List (ℤ × F)) (g : Guard F)
      → IsPaused until chat g
      → IsPaused until chat (restore_each c rows g)
  unfolding restore_each
  restore_each-keeps until chat c [] g p = p
  restore_each-keeps until chat c (r ∷ rows) g p =
      restore_each-keeps until chat c rows _
        (restore_backoff-keeps until chat (chat_of r.0) c.now c.made (sub r.1 c.wall) g p)

  restore_each-IsPaused :
      (until : F) (chat : ℤ) (c : Readings) (rows : List (ℤ × F)) (g : Guard F)
      → eq_ℤ chat (pos 0) ≡ false
      → ltf c.wall until ≡ true
      → is_paused chat until rows ≡ true
      → IsPaused (add c.now (sub until c.wall)) chat (restore_each c rows g)
  unfolding restore_each
  restore_each-IsPaused until chat c [] g n w h = absurd (ground (arith, h))
  restore_each-IsPaused until chat c ((j, saved) ∷ rows) g n w h =
      elim (Bool-cases (j =? chat && leb until saved)) [
        | inl here ↦ restore_each-keeps (add c.now (sub until c.wall)) chat c rows _ (
            subst
              (λ k.
                IsPaused (add c.now (sub until c.wall)) chat
                  (restore_backoff c.now c.made (chat_of k) (sub saved c.wall) g))
              (sym ((eq_ℤ_iff j chat).0 (ground (arith, here))))
              (rw n (
                restore_backoff-IsPaused until saved c.wall chat c.now c.made g
                  (ground (arith, here)) w)))
        | inr there ↦ restore_each-IsPaused until chat c rows _ n w (ground (arith, h, there))
      ]

  module _ (seal open_token : String → Option String) (rate : RateConfig F) where
    -- A pause of a chat that RecordBackoff saved is in force again after a restart, in which no
    -- session of the alias is there yet and its queue can be opened: if the row was
    -- written and is read, and the wall clock is not past it, the session that Attach makes has
    -- that chat paused for what is left of the time, whatever other pauses the table holds. The
    -- chat with the number 0 is left out, since its row stands for the whole bot.
    pub attach-save_backoff :
        (e : Engine) (name token : String) (on_limit : Option String) (paid : Bool) (chat : ℤ)
        (until : F) (queue : Queue F) (m : Manager F)
        → eq_ℤ chat (pos 0) ≡ false
        → e.opened ≡ some queue
        → e.load_ok ≡ true
        → ltf e.load_at until ≡ true
        → ltf e.readings.wall until ≡ true
        → get name m ≡ none
        → let saved = record m { backoffs = save_backoff true name (some chat) until m.backoffs } in
          (s : Session F) × (get name
              (attach seal open_token rate e name token on_limit paid saved).0
            ≡ some s)
          × IsPaused (add e.readings.now (sub until e.readings.wall)) chat s.guard
    unfolding get attach attach_found attach_new restore_backoffs new_session
    attach-save_backoff e name token on_limit paid chat until queue m n o l at w none_yet =
        let saved = save_backoff true name (some chat) until m.backoffs in
        let g = record (new_guard rate e.made_at) { paid_enabled = paid } in
        let rows = (load_backoffs e.clear_ok true name e.load_at saved).1 in
        let s =
          new_session seal open_token rate name token on_limit paid queue
            (restore_each e.readings rows g) in
        (
          s,
          rw (none_yet, o, l) (find-put_self name s m.sessions),
          restore_each-IsPaused until chat e.readings rows g n w (
              load_backoffs-save_backoff e.clear_ok name (some chat) until e.load_at m.backoffs at),
        )
