-- ===== src/Botapi/Proxy/Settling.antt =====
-- The Idempotency-Key of a call in internal/botapi/proxy.go: Call settles the key it claimed at
-- every end but the two that only steer the typing indicator.
use tg_session_gateway.Prelude.{
  ℤ, ℕ, ◌≡◌, refl, ◌∙◌, ap, Bool, true, false, not, ◌&&◌, Option, none, some, String, pair_has_eq,
  string_has_eq, find, is_some, if◌then◌else◌, ltb, Every, Every-map, if_both, arith,
}
use tg_session_gateway.Float64.{Float64}
use tg_session_gateway.RateGuard.Method.{Text, text, text_eq, to_lower, Kind, method_kind}
use tg_session_gateway.RateGuard.Guard.{enter_paid_lane, exit_paid_lane}
use tg_session_gateway.Store.Idempotency.{
  Keys, Claim, claimed, reclaimed, replay, idempotency_claim, idempotency_finish, idempotency_fail,
}
use tg_session_gateway.Botapi.Value.{Object, extract_chat_id, truthy}
use tg_session_gateway.Botapi.Session.{note_real_429, note_send, note_synthetic_429}
use tg_session_gateway.Botapi.Proxy.{
  Upstream, replayed, failed, replied, Response, Plane, Env, Admission, admitted, limited,
  abandoned, key_of, is_429, with_guard, Codec, ask, bytes, is_write,
}
use tg_session_gateway.Botapi.Proxy.Forward.{
  note_send_if, learn_429, record_backoff, retry_after, settle_reply, forward_marshalled, forward,
  admit, waits_for, admit_and_forward,
}
use tg_session_gateway.Botapi.Proxy.Call.{
  settle_answer, settle_key, leave_lane, send_on_lane, bookkeep, after_bookkeeping, claim_key,
  after_claim, key_active, call_send,
}

module _ ⦃N : Float64⦄ where
  open N use {F}

  -- The table of keys and the owner of the key are the same.
  pub record SameKeys (w v : Plane F) : Type 0 where
    pub keys : v.keys ≡ w.keys
    pub name : v.session.name ≡ w.session.name

  pub SameKeys-same : (w : Plane F) → SameKeys w w
  SameKeys-same w = record { keys = refl; name = refl }

  SameKeys-trans : (w v u : Plane F) → SameKeys w v → SameKeys v u → SameKeys w u
  SameKeys-trans w v u s r = record { keys = r.keys ∙ s.keys; name = r.name ∙ s.name }

  module _ ⦃C : Codec F⦄ where
    note_send_if-SameKeys :
        (counts : Bool) (now : F) (w : Plane F) → SameKeys w (note_send_if counts now w)
    unfolding note_send
    note_send_if-SameKeys true now w = record { keys = refl; name = refl }
    note_send_if-SameKeys false now w = record { keys = refl; name = refl }

    learn_429-SameKeys :
        (e : Env F) (method : Text) (chat : Option ℤ) (retry : F) (w : Plane F)
        → SameKeys w (learn_429 e method chat retry w)
    unfolding learn_429 record_backoff note_real_429
    learn_429-SameKeys e method chat retry w = record { keys = refl; name = refl }

    pub settle_reply-SameKeys :
        (e : Env F) (method : Text) (chat : Option ℤ) (counts : Bool) (u : Upstream) (w : Plane F)
        → SameKeys w (settle_reply e method chat counts u w).1
    unfolding settle_reply
    settle_reply-SameKeys e method chat counts (failed err) w = SameKeys-same w
    settle_reply-SameKeys e method chat counts (replied status body) w =
        let v = note_send_if counts e.sent_at w in
        let s = note_send_if-SameKeys counts e.sent_at w in
        if_both (SameKeys w) (is_429 status) (learn_429 e method chat (retry_after body) v) v
          (SameKeys-trans w v _ s (learn_429-SameKeys e method chat (retry_after body) v)) s

    forward_marshalled-SameKeys :
        (e : Env F) (method : Text) (chat : Option ℤ) (kind : Kind) (json : Option String)
        (w : Plane F)
        → SameKeys w (forward_marshalled e method chat kind json w).1
    forward_marshalled-SameKeys e method chat kind none w = SameKeys-same w
    forward_marshalled-SameKeys e method chat kind (some json) w =
        let v = ask method (bytes json) w in
        SameKeys-trans w v _ (record { keys = refl; name = refl })
          (settle_reply-SameKeys e method chat (is_write kind) e.reply v)

    forward-SameKeys :
        (e : Env F) (method : Text) (body : Object F) (chat : Option ℤ) (kind : Kind)
        (a : Option (Admission F)) (w : Plane F)
        → Every (λ r. SameKeys w r.1) (forward e method body chat kind a w)
    unfolding forward note_synthetic_429
    forward-SameKeys e method body chat kind none w = tt
    forward-SameKeys e method body chat kind (some (limited b g)) w = record {
      keys = refl;
      name = refl;
    }
    forward-SameKeys e method body chat kind (some (abandoned g)) w = record {
      keys = refl;
      name = refl;
    }
    forward-SameKeys e method body chat kind (some (admitted g)) w =
        SameKeys-trans w (with_guard g w) _ (record { keys = refl; name = refl })
          (forward_marshalled-SameKeys e method chat kind (C.marshal body) (with_guard g w))

    -- What the end of a call makes of the key, by its status.
    abbrev pub settled_keys : Env F → String × String → ℕ → Keys F → Keys F
    settled_keys e k status t =
        if ltb status 400
        then idempotency_finish e.settle_ok e.settle_at k t
        else idempotency_fail e.settle_ok k t

    -- The session keeps its name, and the key that `w` holds is settled by the status.
    pub record Settled (e : Env F) (idem : String) (w : Plane F) (r : Response × Plane F)
        : Type 0 where
      pub name : r.1.session.name ≡ w.session.name
      pub keys : r.1.keys ≡ settled_keys e (key_of idem w) r.0.status w.keys

    Settled-trans :
        (e : Env F) (idem : String) (w v : Plane F) (r : Response × Plane F)
        → SameKeys w v
        → Settled e idem v r
        → Settled e idem w r
    Settled-trans e idem w v r s h = record {
      name = h.name ∙ s.name;
      keys =
          h.keys
          ∙ ap (λ n. settled_keys e (n, idem) r.0.status v.keys) s.name
          ∙ ap (settled_keys e (key_of idem w) r.0.status) s.keys;
    }

    settle_answer-Settled :
        (e : Env F) (idem : String) (w : Plane F) (r : Response × Plane F)
        → SameKeys w r.1
        → Settled e idem w (settle_answer e idem r)
    settle_answer-Settled e idem w (r, v) s = record {
      name = s.name;
      keys =
          ap (λ n. settled_keys e (n, idem) r.status v.keys) s.name
          ∙ ap (settled_keys e (key_of idem w) r.status) s.keys;
    }

    settle_key-Settled :
        (e : Env F) (idem : String) (w : Plane F) (o : Option (Response × Plane F))
        → Every (λ r. SameKeys w r.1) o
        → Every (Settled e idem w) (settle_key true e idem o)
    unfolding settle_key
    settle_key-Settled e idem w none s = tt
    settle_key-Settled e idem w (some r) s = settle_answer-Settled e idem w r s

    leave_lane-Settled :
        (e : Env F) (idem : String) (w v : Plane F) (o : Option (Response × Plane F))
        → SameKeys w v
        → Every (Settled e idem v) o
        → Every (Settled e idem w) (leave_lane o)
    leave_lane-Settled e idem w v none s h = tt
    leave_lane-Settled e idem w v (some (r, u)) s h =
        Settled-trans e idem w v (r, with_guard (exit_paid_lane u.session.guard) u) s
          (record { name = h.name; keys = h.keys })

    send_on_lane-Settled :
        (e : Env F) (timeout : F) (idem : String) (m method : Text) (body : Object F)
        (chat : Option ℤ) (kind : Kind) (w : Plane F)
        → Every (Settled e idem w) (send_on_lane e timeout true idem m method body chat kind w)
    unfolding send_on_lane admit_and_forward
    send_on_lane-Settled e timeout idem m method body chat kind w =
        let asked = truthy (find "allow_paid_broadcast" body) in
        let v = with_guard (enter_paid_lane asked w.session.guard) w in
        leave_lane-Settled e idem w v _ (record { keys = refl; name = refl })
          (if_both (Every (Settled e idem v)) (asked && not w.session.paid_broadcasts) _ _
            (record { name = refl; keys = refl })
            (settle_key-Settled e idem v _ (
              forward-SameKeys e method body chat kind
                (admit (waits_for kind v.session) m chat timeout N.zero e.tries v.session.guard)
                v)))

    -- Only the indicator's own method ends a call before it is sent.
    GoesOnAfter : Plane F → Bool × Plane F → Type 0
    GoesOnAfter w r = (r.0 ≡ false) × SameKeys w r.1

    bookkeep-goes_on :
        (m : Text) (kind : Kind) (chat : Option ℤ) (body : Object F) (w : Plane F)
        → text_eq m (text "sendchataction") ≡ false
        → GoesOnAfter w (bookkeep m kind chat body w)
    unfolding bookkeep GoesOnAfter
    bookkeep-goes_on m kind chat body w h = rw h (
        if_both (GoesOnAfter w) (text_eq m (text "answercallbackquery")) _ _
          (refl, record { keys = refl; name = refl })
          (if_both (GoesOnAfter w) (is_write kind && is_some chat) _ _
            (refl, record { keys = refl; name = refl }) (refl, SameKeys-same w)))

    sent_out-Settled :
        (e : Env F) (timeout : F) (idem : String) (m method : Text) (body : Object F)
        (chat : Option ℤ) (kind : Kind) (w : Plane F) (r : Bool × Plane F)
        → GoesOnAfter w r
        → Every (Settled e idem w) (after_bookkeeping e timeout true idem m method body chat kind r)
    unfolding GoesOnAfter
    sent_out-Settled e timeout idem m method body chat kind w (true, v) g =
        absurd (ground (arith, g.0))
    sent_out-Settled e timeout idem m method body chat kind w (false, v) g =
        Every-map {Q = Settled e idem w} (λ r. Settled-trans e idem w v r g.1) _
          (send_on_lane-Settled e timeout idem m method body chat kind v)

    -- What becomes of a call with a key, by its claim: a replay is answered as such and nothing
    -- else changes, any other is settled.
    abbrev pub Ends : Env F → String → Claim → Plane F → Response × Plane F → Type 0
    Ends e idem replay v r = r ≡ (record { status = 200; body = replayed }, v)
    Ends e idem claimed v r = Settled e idem v r
    Ends e idem reclaimed v r = Settled e idem v r

    after_claim-Ends :
        (e : Env F) (timeout : F) (idem : String) (m method : Text) (body : Object F)
        (chat : Option ℤ) (kind : Kind) (c : Claim) (v : Plane F)
        → text_eq m (text "sendchataction") ≡ false
        → Every (Ends e idem c v) (after_claim e timeout true idem m method body chat kind (c, v))
    after_claim-Ends e timeout idem m method body chat kind replay v h = refl
    after_claim-Ends e timeout idem m method body chat kind claimed v h =
        sent_out-Settled e timeout idem m method body chat kind v _
          (bookkeep-goes_on m kind chat body v h)
    after_claim-Ends e timeout idem m method body chat kind reclaimed v h =
        sent_out-Settled e timeout idem m method body chat kind v _
          (bookkeep-goes_on m kind chat body v h)

    -- The plane after the claim of a call.
    abbrev pub claimed_plane : Env F → String → Plane F → Plane F
    claimed_plane e idem w = record w {
      keys = (idempotency_claim e.faults e.claim_at (key_of idem w) w.keys).1;
    }

    -- Call from the claim on, for a write with an Idempotency-Key: a replay changes nothing but the
    -- claim, and any other call is settled. The method sendChatAction is left out, whose two signals
    -- to the typing indicator end before that.
    pub call_send-Ends :
        (e : Env F) (timeout : F) (idem : String) (method : Text) (body : Object F) (w : Plane F)
        → key_active idem (method_kind (to_lower method)) ≡ true
        → text_eq (to_lower method) (text "sendchataction") ≡ false
        → Every
            (Ends e idem
              (idempotency_claim e.faults e.claim_at (key_of idem w) w.keys).0
              (claimed_plane e idem w))
            (call_send e timeout idem method body w)
    unfolding call_send claim_key
    call_send-Ends e timeout idem method body w a h = rw a (
        after_claim-Ends e timeout idem (to_lower method) method body (extract_chat_id body)
          (method_kind (to_lower method))
          (idempotency_claim e.faults e.claim_at (key_of idem w) w.keys).0 (claimed_plane e idem w)
          h)
