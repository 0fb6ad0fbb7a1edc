-- ===== src/Botapi/Poller/Restart.antt =====
-- What a batch of updates leaves for the next start of the poller of internal/botapi/session.go.
use tg_session_gateway.Prelude.{
  ℤ, pos, ◌≤ℤ◌, ◌≡◌, refl, true, Option, none, some, List, ◌∷◌, map, String, string_has_eq, find,
  find-put_self, All, arith, is_some,
}
use tg_session_gateway.Float64.{Float64}
use tg_session_gateway.Store.Gateway.{Bots, BotRow, update_bot, save_offset, get_offset}
use tg_session_gateway.Store.Queue.{Queue, Outcome, more, overflow, panic}
use tg_session_gateway.Store.Queue.Invariant.{IsValid, OutcomeFits, push_all-IsValid}
use tg_session_gateway.Botapi.Poller.{
  Polled, Setup, Input, Poller, number_id, advance, after_push, pushed, on_batch, start_poller,
  with_queue,
}
use tg_session_gateway.Botapi.Poller.Progress.{Ends, advance-All}

module _ ⦃N : Float64⦄ where
  open N use {F}

  module _ ⦃S : Setup⦄ where
    open S use {marshal}

    get-update :
        (name : String) (o : ℤ) (r : Option BotRow) (bots : Bots)
        → is_some r ≡ true
        → get_offset true name (update_bot name (λ x. record x { telegram_offset = o }) r bots) ≡ o
    unfolding get_offset update_bot
    get-update name o none bots h = absurd (ground (arith, h))
    get-update name o (some r) bots h =
        rw (find-put_self name (record r { telegram_offset = o }) bots) refl

    get-save :
        (name : String) (o : ℤ) (bots : Bots)
        → is_some (find name bots) ≡ true
        → get_offset true name (save_offset true name o bots) ≡ o
    unfolding get_offset save_offset
    get-save name o bots h = get-update name o (find name bots) bots h

    after_push-Restarts :
        (i : Input F) (us : List (Polled F)) (now : F) (p : Poller F) (x : Queue F)
        → is_some (find p.session.name p.bots) ≡ true
        → i.offset_ok ≡ true
        → let q = after_push i us (with_queue x p) in
          All (λ v. number_id v ≤ℤ q.offset) us × ((start_poller true now q).offset ≡ q.offset)
    unfolding after_push start_poller
    after_push-Restarts i us now p x b k =
        (advance-All us p.offset, rw k (get-save p.session.name (advance us p.offset) p.bots b))

    pushed-Restarts :
        (i : Input F) (us : List (Polled F)) (now : F) (p : Poller F) (o : Outcome F)
        → is_some (find p.session.name p.bots) ≡ true
        → i.offset_ok ≡ true
        → OutcomeFits p.session.queue.maxsize o
        → Ends
            (λ q.
              All (λ v. number_id v ≤ℤ q.offset) us × ((start_poller true now q).offset ≡ q.offset))
            (pushed i us o p)
    unfolding pushed
    pushed-Restarts i us now p (more b) h k f = after_push-Restarts i us now p b.queue h k
    pushed-Restarts i us now p (overflow b) h k f = after_push-Restarts i us now p b.queue h k
    pushed-Restarts i us now p panic h k f = f

    -- A batch that was received by a poller whose queue is valid and has a size of at least 1: every
    -- update of it is at the poller's offset or below. If the bot has a row, the row is written, and
    -- a new start of the poller reads it, that offset is where it begins, so Telegram is asked for
    -- none of these updates again.
    pub start_poller-on_batch :
        (i : Input F) (u : Polled F) (us : List (Polled F)) (now : F) (p : Poller F)
        → pos 1 ≤ℤ p.session.queue.maxsize
        → IsValid p.session.queue
        → is_some (find p.session.name p.bots) ≡ true
        → i.offset_ok ≡ true
        → Ends
            (λ q.
              All (λ v. number_id v ≤ℤ q.offset) (u ∷ us)
              × ((start_poller true now q).offset ≡ q.offset))
            (on_batch i (u ∷ us) p)
    unfolding on_batch
    start_poller-on_batch i u us now p n v b k = pushed-Restarts i (u ∷ us) now p _ b k (
        push_all-IsValid marshal i.pruned_at (map (λ w. (w.update, w.pushed_at)) (u ∷ us))
          p.session.queue n v)
