-- ===== src/Botapi/Poller/Progress.antt =====
-- What the poller of internal/botapi/session.go keeps through any rounds.
use tg_session_gateway.Prelude.{
  ℤ, pos, ◌≤ℤ◌, ltb_ℤ, ◌≡◌, refl, sym, ◌∙◌, ap, subst, true, Option, none, some, List, [], ◌∷◌, map,
  string_has_eq, if◌then◌else◌, All, if_both, arith,
}
use tg_session_gateway.Float64.{
  Float64, ltf, fmin, fmax, fmin-le_right, le-fmax_left, le-fmax_right,
}
use tg_session_gateway.Store.Queue.{ack, Queue, Outcome, more, overflow, panic}
use tg_session_gateway.Store.Queue.Invariant.{
  IsValid, OutcomeFits, push_all-IsValid, ack-IsValid, ack_maxsize,
}
use tg_session_gateway.Botapi.Value.{number_of}
use tg_session_gateway.Botapi.Session.{State, live, error, note_real_429}
use tg_session_gateway.Botapi.Poller.{
  Polled, Answer, unreachable, ended, unreadable, refused, received, Setup, Meanwhile, ack_each,
  set_state_if, Input, Poller, Next, goes, returns, crash, set_state, set_error, land, wait,
  is_idle, is_error, double, number_id, advance, after_push, pushed, on_batch, pause_bot, on_answer,
  poll_round, poll, with_queue,
}

module _ ⦃N : Float64⦄ where
  open N use {F, leb, leb_trans, mul, of_int, zero, to_int}

  -- A round ends in a state of the poller; it does not crash.
  abbrev pub Ends : (Poller F → Type 0) → Next F → Type 0
  Ends P (goes p) = P p
  Ends P (returns p) = P p
  Ends P crash = ⊥

  module _ ⦃S : Setup⦄ where
    open S use {marshal, scan, backoff_max}

    -- What holds of a poller that started as `p`.
    pub record Steady (p q : Poller F) : Type 0 where
      pub backoff : leb q.backoff (fmax (of_int (pos 1)) backoff_max) ≡ true
      pub offset : p.offset ≤ℤ q.offset
      pub valid : IsValid q.session.queue
      pub maxsize : q.session.queue.maxsize ≡ p.session.queue.maxsize

    -- The offset, the backoff and the queue are the same.
    record Alike (p q : Poller F) : Type 0 where
      pub backoff : q.backoff ≡ p.backoff
      pub offset : q.offset ≡ p.offset
      pub queue : q.session.queue ≡ p.session.queue

    Steady-Alike : (p q r : Poller F) → Steady p q → Alike q r → Steady p r
    Steady-Alike p q r s a = record {
      backoff =
          subst (λ b. leb b (fmax (of_int (pos 1)) backoff_max) ≡ true) (sym a.backoff) s.backoff;
      offset = subst (λ o. p.offset ≤ℤ o) (sym a.offset) s.offset;
      valid = subst IsValid (sym a.queue) s.valid;
      maxsize = ap (λ x. x.maxsize) a.queue ∙ s.maxsize;
    }

    ack_each-IsValid :
        (ks : List ℤ) (q : Queue F)
        → IsValid q
        → IsValid (ack_each ks q) × ((ack_each ks q).maxsize ≡ q.maxsize)
    ack_each-IsValid [] q v = (v, refl)
    ack_each-IsValid (k ∷ ks) q v =
        let rest = ack_each-IsValid ks (ack k q) (ack-IsValid k q v) in
        (rest.0, rest.1 ∙ ack_maxsize k q)

    set_state_if-Alike : (o : Option State) (p : Poller F) → Alike p (set_state_if o p)
    set_state_if-Alike none p = record { backoff = refl; offset = refl; queue = refl }
    set_state_if-Alike (some st) p = record { backoff = refl; offset = refl; queue = refl }

    land-Steady : (m : Meanwhile) (p q : Poller F) → Steady p q → Steady p (land m q)
    land-Steady m p q s =
        let acked = ack_each m.acks q.session.queue in
        let r = ack_each-IsValid m.acks q.session.queue s.valid in
        let q' = record q { session = record q.session { queue = acked } } in
        Steady-Alike p q' (land m q)
          (record {
            backoff = s.backoff;
            offset = s.offset;
            valid = r.0;
            maxsize = r.1 ∙ s.maxsize;
          })
          (set_state_if-Alike m.state q')

    wait-Steady :
        (i : Input F) (p q : Poller F) (k : Poller F → Poller F)
        → Steady p q
        → ((r : Poller F) → Steady p r → Steady p (k r))
        → Ends (Steady p) (wait i q k)
    wait-Steady i p q k s h =
        let s' = land-Steady i.landed p q s in
        if_both (Ends (Steady p)) i.outlived _ _ (h (land i.landed q) s') s'

    double-Steady : (p q : Poller F) → Steady p q → Steady p (double q)
    double-Steady p q s = record {
      backoff =
          leb_trans (fmin (mul q.backoff (of_int (pos 2))) backoff_max) backoff_max
            (fmax (of_int (pos 1)) backoff_max)
            (fmin-le_right (mul q.backoff (of_int (pos 2))) backoff_max)
            (le-fmax_right (of_int (pos 1)) backoff_max);
      offset = s.offset;
      valid = s.valid;
      maxsize = s.maxsize;
    }

    advance_mono : (us : List (Polled F)) (o : ℤ) → o ≤ℤ advance us o
    unfolding advance
    advance_mono [] o = omega arith
    advance_mono (u ∷ us) o =
        let id = number_id u in
        let rest = advance_mono us (if ltb_ℤ o id then id else o) in ground (arith, rest)

    -- Every update of the batch is at the offset or below it.
    pub advance-All : (us : List (Polled F)) (o : ℤ) → All (λ u. number_id u ≤ℤ advance us o) us
    unfolding advance
    advance-All [] o = tt
    advance-All (u ∷ us) o =
        let id = number_id u in
        let o' = if ltb_ℤ o id then id else o in
        (ground (arith, advance_mono us o'), advance-All us o')

    le_trans : (a b c : ℤ) → a ≤ℤ b → b ≤ℤ c → a ≤ℤ c
    le_trans a b c h k = omega arith

    after_push-Steady :
        (i : Input F) (us : List (Polled F)) (p q : Poller F) (x : Queue F)
        → Steady p q
        → IsValid x
        → x.maxsize ≡ q.session.queue.maxsize
        → Steady p (after_push i us (with_queue x q))
    unfolding after_push
    after_push-Steady i us p q x s v m = record {
      backoff = s.backoff;
      offset = le_trans p.offset q.offset _ s.offset (advance_mono us q.offset);
      valid = v;
      maxsize = m ∙ s.maxsize;
    }

    pushed-Steady :
        (i : Input F) (us : List (Polled F)) (p q : Poller F) (o : Outcome F)
        → Steady p q
        → OutcomeFits q.session.queue.maxsize o
        → Ends (Steady p) (pushed i us o q)
    unfolding pushed
    pushed-Steady i us p q (more b) s f = after_push-Steady i us p q b.queue s f.0 f.1
    pushed-Steady i us p q (overflow b) s f = after_push-Steady i us p q b.queue s f.0 f.1
    pushed-Steady i us p q panic s f = f

    on_batch-Steady :
        (i : Input F) (us : List (Polled F)) (p q : Poller F)
        → pos 1 ≤ℤ p.session.queue.maxsize
        → Steady p q
        → Ends (Steady p) (on_batch i us q)
    unfolding on_batch
    on_batch-Steady i [] p q n s =
        if_both (Steady p) (is_error q.session.state) (set_state live q) q
          (record { backoff = s.backoff; offset = s.offset; valid = s.valid; maxsize = s.maxsize })
          s
    on_batch-Steady i (u ∷ us) p q n s = pushed-Steady i (u ∷ us) p q _ s (
        push_all-IsValid marshal i.pruned_at (map (λ v. (v.update, v.pushed_at)) (u ∷ us))
          q.session.queue (subst (λ m. pos 1 ≤ℤ m) (sym s.maxsize) n) s.valid)

    pause_bot-Steady :
        (i : Input F) (retry : F) (p q : Poller F) → Steady p q → Steady p (pause_bot i retry q)
    unfolding pause_bot note_real_429
    pause_bot-Steady i retry p q s = record {
      backoff = s.backoff;
      offset = s.offset;
      valid = s.valid;
      maxsize = s.maxsize;
    }

    on_answer-Steady :
        (i : Input F) (a : Answer F) (p q : Poller F)
        → pos 1 ≤ℤ p.session.queue.maxsize
        → Steady p q
        → Ends (Steady p) (on_answer i a q)
    unfolding on_answer
    on_answer-Steady i (unreachable msg) p q n s =
        wait-Steady i p (set_error msg (set_state error q)) (λ x. set_state live (double x))
          (record { backoff = s.backoff; offset = s.offset; valid = s.valid; maxsize = s.maxsize })
          (λ r h.
            Steady-Alike p (double r) (set_state live (double r)) (double-Steady p r h)
              (record { backoff = refl; offset = refl; queue = refl }))
    on_answer-Steady i ended p q n s = s
    on_answer-Steady i (unreadable msg) p q n s =
        wait-Steady i p (set_error msg q) double
          (record { backoff = s.backoff; offset = s.offset; valid = s.valid; maxsize = s.maxsize })
          (double-Steady p)
    on_answer-Steady i (refused retry) p q n s =
        if_both (Ends (Steady p)) (ltf zero (number_of scan retry)) _ _
          (wait-Steady i p (pause_bot i (number_of scan retry) q) (λ x. x)
            (pause_bot-Steady i (number_of scan retry) p q s) (λ r h. h))
          (wait-Steady i p q double s (double-Steady p))
    on_answer-Steady i (received us) p q n s =
        on_batch-Steady i us p (record q { backoff = of_int (pos 1) }) n
          (record {
            backoff = le-fmax_left (of_int (pos 1)) backoff_max;
            offset = s.offset;
            valid = s.valid;
            maxsize = s.maxsize;
          })

    poll_round-Steady :
        (i : Input F) (p q : Poller F)
        → pos 1 ≤ℤ p.session.queue.maxsize
        → Steady p q
        → Ends (Steady p) (poll_round i q)
    unfolding poll_round
    poll_round-Steady i p q n s =
        if_both (Ends (Steady p)) (is_idle q.session.state) _ _
          (wait-Steady i p q (λ x. x) s (λ r h. h))
          (on_answer-Steady i i.answer p (land i.polling q) n (land-Steady i.polling p q s))

    poll_on :
        (is : List (Input F)) (p : Poller F) (o : Next F)
        → ((q : Poller F) → Steady p q → Ends (Steady p) (poll is q))
        → Ends (Steady p) o
        → Ends (Steady p) (elim o [ goes q ↦ poll is q | returns q ↦ returns q | crash ↦ crash ])
    poll_on is p (goes q) k e = k q e
    poll_on is p (returns q) k e = e
    poll_on is p crash k e = e

    poll_from :
        (is : List (Input F)) (p q : Poller F)
        → pos 1 ≤ℤ p.session.queue.maxsize
        → Steady p q
        → Ends (Steady p) (poll is q)
    unfolding poll
    poll_from [] p q n s = s
    poll_from (i ∷ is) p q n s =
        poll_on is p (poll_round i q) (λ r h. poll_from is p r n h) (poll_round-Steady i p q n s)

    -- Through any rounds, whatever upstream answers, whatever states are set and whatever updates
    -- consumers acknowledge meanwhile, the poller of a queue with a size of at least 1 does not crash, its offset never goes back, its backoff stays within the larger of one second
    -- and its maximum, and its queue stays valid, so within its size.
    pub poll-Steady :
        (is : List (Input F)) (p : Poller F)
        → pos 1 ≤ℤ p.session.queue.maxsize
        → IsValid p.session.queue
        → leb p.backoff (fmax (of_int (pos 1)) backoff_max) ≡ true
        → Ends (Steady p) (poll is p)
    poll-Steady is p n v b =
        poll_from is p p n (record { backoff = b; offset = omega arith; valid = v; maxsize = refl })
