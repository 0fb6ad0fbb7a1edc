-- ===== src/Botapi/Typing/Runs.antt =====
-- Sequences of the operations of internal/botapi/typing.go, in whatever order the requests, the
-- updates and the loops' ends come.
use tg_session_gateway.Prelude.{
  ℤ, ℕ, suc, ◌<◌, ◌≡◌, refl, sym, ◌∙◌, ap, Bool, true, false, inl, inr, Bool-cases, Option, none,
  some, List, [], ◌∷◌, String, find, remove, nat_has_eq, string_has_eq, find-put, keep, ◌=?◌,
  if◌then◌else◌, arith, ◌==◌, ==_iff, subst,
}
use tg_session_gateway.Float64.{Float64}
use tg_session_gateway.RateGuard.Method.{Text, text_has_eq}
use tg_session_gateway.Botapi.Typing.{
  Patch, apply, Deadline, at, ActiveLoop, ChatKey, Typing, chat_key_has_eq, mark, hushed, of_bot,
  rearm, edit_found, edit, cancel_each, stop_at, stop, stop_all, stop_target, stop_by_callback_id,
  cancel_timeout_at, cancel_timeout, cleanup, close, start_at, start,
}

module _ ⦃N : Float64⦄ where
  open N use {F, add}

  pub data Op : Type 0 where
    -- start
    acted : F → F → ChatKey → Op
    -- Stop
    replied : String → Option ℤ → Op
    -- StopAll
    stopped : String → Op
    -- StopByCallbackID
    answered : String → Option Text → Op
    -- CancelTimeout
    untimed : String → Option ℤ → Op
    -- cleanup, of a loop that returns
    returned : String → ℤ → Op
    -- Apply
    patched : Patch F → Op
    -- Close
    closed_down : Op

  unfoldable pub step : Op → Typing F → Typing F
  step (acted now timeout k) t = start now timeout k t
  step (replied name chat) t = stop name chat t
  step (stopped name) t = stop_all name t
  step (answered name id) t = stop_by_callback_id name id t
  step (untimed name chat) t = cancel_timeout name chat t
  step (returned name chat) t = cleanup name chat t
  step (patched p) t = record t { settings = apply p t.settings }
  step closed_down t = close t

  unfoldable pub run : List Op → Typing F → Typing F
  run [] t = t
  run (o ∷ os) t = run os (step o t)

  abbrev pub holds : (ActiveLoop F → Bool) → Option (ActiveLoop F) → Bool
  holds P none = false
  holds P (some r) = P r

  -- What no operation on a record makes false.
  pub record Kept (P : ActiveLoop F → Bool) : Type 0 where
    pub at_mark : (r : ActiveLoop F) → P r ≡ true → P (mark r) ≡ true
    pub at_hushed : (r : ActiveLoop F) → P r ≡ true → P (hushed r) ≡ true
    pub at_rearm : (d : Deadline F) (r : ActiveLoop F) → P r ≡ true → P (rearm d r) ≡ true

  -- The record at an address that is taken has the property.
  pub record Stays (P : ActiveLoop F → Bool) (p : ℕ) (t : Typing F) : Type 0 where
    pub taken : p < t.next
    pub here : holds P (find p t.loops) ≡ true

  module _ (P : ActiveLoop F → Bool) (kept : Kept P) (p : ℕ) where
    edit_found-holds :
        (f : ActiveLoop F → ActiveLoop F) (q : ℕ) (o : Option (ActiveLoop F))
        (loops : List (ℕ × ActiveLoop F))
        → ((r : ActiveLoop F) → P r ≡ true → P (f r) ≡ true)
        → find q loops ≡ o
        → holds P (find p loops) ≡ true
        → holds P (find p (edit_found f q o loops)) ≡ true
    edit_found-holds f q none loops k e h = h
    edit_found-holds f q (some r) loops k e h = elim (Bool-cases (q == p)) [
      | inl i ↦
          rw (find-put q p (f r) loops, i)
            (k r (ap (holds P) (sym e) ∙ ap (λ j. holds P (find j loops)) ((==_iff q p).0 i) ∙ h))
      | inr i ↦ rw (find-put q p (f r) loops, i) h
    ]

    edit-holds :
        (f : ActiveLoop F → ActiveLoop F) (q : ℕ) (loops : List (ℕ × ActiveLoop F))
        → ((r : ActiveLoop F) → P r ≡ true → P (f r) ≡ true)
        → holds P (find p loops) ≡ true
        → holds P (find p (edit f q loops)) ≡ true
    unfolding edit
    edit-holds f q loops k h = edit_found-holds f q (find q loops) loops k refl h

    holds-cancel_each :
        (es : List (ChatKey × ℕ)) (loops : List (ℕ × ActiveLoop F))
        → holds P (find p loops) ≡ true
        → holds P (find p (cancel_each es loops)) ≡ true
    unfolding cancel_each
    holds-cancel_each [] loops h = h
    holds-cancel_each (e ∷ es) loops h =
        holds-cancel_each es (edit mark e.1 loops) (edit-holds mark e.1 loops kept.at_mark h)

    -- Only the records change, or not even these.
    Stays-of_loops :
        (t u : Typing F)
        → u.next ≡ t.next
        → holds P (find p u.loops) ≡ true
        → Stays P p t
        → Stays P p u
    Stays-of_loops t u n h s = record { taken = subst (λ m. p < m) (sym n) s.taken; here = h }

    if-Stays :
        (b : Bool) (t u : Typing F) → Stays P p t → Stays P p u → Stays P p (if b then t else u)
    if-Stays true t u s r = s
    if-Stays false t u s r = r

    lt_suc : (q : ℕ) → p < q → p < suc q
    lt_suc q h = omega arith

    other : (q : ℕ) → p < q → (q == p) ≡ false
    other q h = ground arith

    stop_at-Stays : (o : Option ℕ) (t : Typing F) → Stays P p t → Stays P p (stop_at o t)
    unfolding stop_at
    stop_at-Stays none t s = s
    stop_at-Stays (some q) t s =
        Stays-of_loops t (stop_at (some q) t) refl (edit-holds mark q t.loops kept.at_mark s.here) s

    stop-Stays :
        (name : String) (chat : Option ℤ) (t : Typing F)
        → Stays P p t
        → Stays P p (stop name chat t)
    unfolding stop
    stop-Stays name none t s = s
    stop-Stays name (some chat) t s = stop_at-Stays (find (name, chat) t.active) t s

    stop_target-Stays :
        (name : String) (o : Option ChatKey) (t : Typing F)
        → Stays P p t
        → Stays P p (stop_target name o t)
    unfolding stop_target
    stop_target-Stays name none t s = s
    stop_target-Stays name (some (owner, chat)) t s =
        if-Stays (owner =? name) (stop name (some chat) t) t (stop-Stays name (some chat) t s) s

    answered-Stays :
        (name : String) (id : Option Text) (t : Typing F)
        → Stays P p t
        → Stays P p (stop_by_callback_id name id t)
    unfolding stop_by_callback_id
    answered-Stays name none t s = s
    answered-Stays name (some id) t s =
        stop_target-Stays name (find id t.callbacks)
          (record t { callbacks = remove id t.callbacks })
          (Stays-of_loops t (record t { callbacks = remove id t.callbacks }) refl s.here s)

    cancel_timeout_at-Stays :
        (o : Option ℕ) (t : Typing F) → Stays P p t → Stays P p (cancel_timeout_at o t)
    unfolding cancel_timeout_at
    cancel_timeout_at-Stays none t s = s
    cancel_timeout_at-Stays (some q) t s =
        Stays-of_loops t (cancel_timeout_at (some q) t) refl
          (edit-holds hushed q t.loops kept.at_hushed s.here) s

    start_at-Stays :
        (now timeout : F) (k : ChatKey) (o : Option ℕ) (t : Typing F)
        → Stays P p t
        → Stays P p (start_at now timeout k o t)
    unfolding start_at
    start_at-Stays now timeout k none t s = record {
      taken = lt_suc t.next s.taken;
      here =
          rw
            (
              find-put t.next p
                  (record { deadline = at (add now timeout); notify = true; cancelled = false })
                  t.loops,
              other t.next s.taken,
            )
            s.here;
    }
    start_at-Stays now timeout k (some q) t s =
        Stays-of_loops t (start_at now timeout k (some q) t) refl
          (edit-holds (rearm (at (add now timeout))) q t.loops
            (kept.at_rearm (at (add now timeout))) s.here)
          s

    start-Stays :
        (now timeout : F) (k : ChatKey) (t : Typing F)
        → Stays P p t
        → Stays P p (start now timeout k t)
    unfolding start
    start-Stays now timeout k t s =
        if-Stays t.closed t (start_at now timeout k (find k t.active) t) s
          (start_at-Stays now timeout k (find k t.active) t s)

    step-Stays : (o : Op) (t : Typing F) → Stays P p t → Stays P p (step o t)
    unfolding step stop_all cancel_timeout cleanup close
    step-Stays (acted now timeout k) t s = start-Stays now timeout k t s
    step-Stays (replied name chat) t s = stop-Stays name chat t s
    step-Stays (stopped name) t s =
        Stays-of_loops t (stop_all name t) refl
          (holds-cancel_each (keep (of_bot name) t.active) t.loops s.here) s
    step-Stays (answered name id) t s = answered-Stays name id t s
    step-Stays (untimed name none) t s = s
    step-Stays (untimed name (some chat)) t s =
        cancel_timeout_at-Stays (find (name, chat) t.active) t s
    step-Stays (returned name chat) t s = Stays-of_loops t (cleanup name chat t) refl s.here s
    step-Stays (patched q) t s = Stays-of_loops t (step (patched q) t) refl s.here s
    step-Stays closed_down t s =
        Stays-of_loops t (close t) refl (holds-cancel_each t.active t.loops s.here) s

    pub run-Stays : (os : List Op) (t : Typing F) → Stays P p t → Stays P p (run os t)
    unfolding run
    run-Stays [] t s = s
    run-Stays (o ∷ os) t s = run-Stays os (step o t) (step-Stays o t s)
