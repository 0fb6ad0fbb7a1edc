-- ===== src/Botapi/Proxy/Pausing.antt =====
-- What a real 429 in internal/botapi/proxy.go does to the calls after it.
use tg_session_gateway.Prelude.{
  All, ℤ, ◌≡◌, refl, sym, ◌∙◌, subst, Bool, true, false, not, ◌&&◌, Option, none, some, is_some,
  List, String, string_has_eq, find, Every, Every-map, if_both, arith,
}
use tg_session_gateway.Float64.{Float64}
use tg_session_gateway.RateGuard.Method.{Text, text, text_eq, to_lower, Kind, write, method_kind}
use tg_session_gateway.RateGuard.Guard.{enter_paid_lane, report_429}
use tg_session_gateway.RateGuard.Guard.Blocks.{IsPaused, IsPaused-tables, report-IsPaused}
use tg_session_gateway.RateGuard.Guard.Blocks.Runs.{GuardOp, guard_run, Early, guard_run-IsPaused}
use tg_session_gateway.Store.Idempotency.{Claim, claimed, reclaimed, replay}
use tg_session_gateway.Botapi.Value.{Object, extract_chat_id, truthy, to_str}
use tg_session_gateway.Botapi.Session.{note_send, note_real_429, note_synthetic_429}
use tg_session_gateway.Botapi.Proxy.{
  replied, Response, Plane, Env, Admission, admitted, limited, abandoned, is_write, with_guard,
  Codec,
}
use tg_session_gateway.Botapi.Proxy.Forward.{
  forward, waits_for, admit_and_forward, settle_reply, learn_429, record_backoff, retry_after,
}
use tg_session_gateway.Botapi.Proxy.Call.{
  settle_key, leave_lane, send_on_lane, send_action, lower_of, bookkeep, after_bookkeeping,
  claim_key, after_claim, call_send, key_active,
}
use tg_session_gateway.Botapi.Proxy.Wait.{sends, AllEarly, admit_paused}

module _ ⦃N : Float64⦄ where
  open N use {F, add}

  -- Nothing new is asked of the client.
  abbrev pub Unsent : Plane F → Response × Plane F → Type 0
  Unsent w r = r.1.sent ≡ w.sent

  -- The steps of a call before the paid lane.
  record Before (w v : Plane F) : Type 0 where
    pub sent : v.sent ≡ w.sent
    pub session : v.session ≡ w.session

  Before-same : (w : Plane F) → Before w w
  Before-same w = record { sent = refl; session = refl }

  -- Steps that end a call or not.
  abbrev BeforeStep {ℓ} : {A : Type ℓ} → Plane F → A × Plane F → Type 0
  BeforeStep w r = Before w r.1

  module _ ⦃C : Codec F⦄ where
    forward-Unsent :
        (e : Env F) (method : Text) (body : Object F) (chat : Option ℤ) (kind : Kind)
        (a : Option (Admission F)) (w : Plane F)
        → sends a ≡ false
        → Every (Unsent w) (forward e method body chat kind a w)
    unfolding forward note_synthetic_429
    forward-Unsent e method body chat kind none w h = tt
    forward-Unsent e method body chat kind (some (limited b g)) w h = refl
    forward-Unsent e method body chat kind (some (abandoned g)) w h = refl
    forward-Unsent e method body chat kind (some (admitted g)) w h = absurd (ground (arith, h))

    settle_key-Unsent :
        (active : Bool) (e : Env F) (idem : String) (w : Plane F) (o : Option (Response × Plane F))
        → Every (Unsent w) o
        → Every (Unsent w) (settle_key active e idem o)
    unfolding settle_key
    settle_key-Unsent active e idem w none h = tt
    settle_key-Unsent true e idem w (some r) h = h
    settle_key-Unsent false e idem w (some r) h = h

    leave_lane-Unsent :
        (w : Plane F) (o : Option (Response × Plane F))
        → Every (Unsent w) o
        → Every (Unsent w) (leave_lane o)
    leave_lane-Unsent w none h = tt
    leave_lane-Unsent w (some r) h = h

    send_on_lane-Unsent :
        (e : Env F) (timeout until : F) (active : Bool) (idem : String) (m method : Text)
        (body : Object F) (chat : ℤ) (w : Plane F)
        → method_kind m ≡ write
        → AllEarly until e.tries
        → IsPaused until chat w.session.guard
        → Every (Unsent w) (send_on_lane e timeout active idem m method body (some chat) write w)
    unfolding send_on_lane admit_and_forward enter_paid_lane
    send_on_lane-Unsent e timeout until active idem m method body chat w k l p =
        let asked = truthy (find "allow_paid_broadcast" body) in
        let g = enter_paid_lane asked w.session.guard in
        let v = with_guard g w in
        leave_lane-Unsent w _ (
          if_both (Every (Unsent w)) (asked && not w.session.paid_broadcasts) _ _
            (if_both (λ (u : Plane F). u.sent ≡ w.sent) active _ _ refl refl)
            (settle_key-Unsent active e idem w _ (
              forward-Unsent e method body (some chat) write _ v (
                admit_paused (waits_for write v.session) m chat timeout N.zero until e.tries g k l
                  (IsPaused-tables until chat w.session.guard g refl refl p)))))

    send_action-Before :
        (a : Option Text) (chat : Option ℤ) (w : Plane F) → BeforeStep w (send_action a chat w)
    unfolding send_action
    send_action-Before none chat w = Before-same w
    send_action-Before (some a) chat w =
        if_both (BeforeStep {A = Bool} w) (text_eq a (text "cancel")) _ _
          (record { sent = refl; session = refl })
          (if_both (BeforeStep {A = Bool} w) (text_eq a (text "cancel_timeout")) _ _
            (record { sent = refl; session = refl }) (record { sent = refl; session = refl }))

    bookkeep-Before :
        (m : Text) (kind : Kind) (chat : Option ℤ) (body : Object F) (w : Plane F)
        → BeforeStep w (bookkeep m kind chat body w)
    unfolding bookkeep
    bookkeep-Before m kind chat body w =
        if_both (BeforeStep {A = Bool} w) (text_eq m (text "sendchataction")) _ _
          (send_action-Before (lower_of (to_str (find "action" body))) chat w)
          (if_both (BeforeStep {A = Bool} w) (text_eq m (text "answercallbackquery")) _ _
            (record { sent = refl; session = refl })
            (if_both (BeforeStep {A = Bool} w) (is_write kind && is_some chat) _ _
              (record { sent = refl; session = refl }) (Before-same w)))

    claim_key-Before :
        (active : Bool) (e : Env F) (idem : String) (w : Plane F)
        → BeforeStep w (claim_key active e idem w)
    unfolding claim_key
    claim_key-Before true e idem w = record { sent = refl; session = refl }
    claim_key-Before false e idem w = Before-same w

    -- A step before the lane, and what follows in its plane.
    module _ (e : Env F) (timeout until : F) (active : Bool) (idem : String) (m method : Text)
        (body : Object F) (chat : ℤ) (k : method_kind m ≡ write) (l : AllEarly until e.tries) where
      sent_out-Unsent :
          (w : Plane F) (r : Bool × Plane F)
          → BeforeStep w r
          → IsPaused until chat w.session.guard
          → Every
              (Unsent w)
              (after_bookkeeping e timeout active idem m method body (some chat) write r)
      sent_out-Unsent w (true, v) b p = b.sent
      sent_out-Unsent w (false, v) b p =
          Every-map {P = Unsent v} {Q = Unsent w} (λ r h. h ∙ b.sent) _
            (send_on_lane-Unsent e timeout until active idem m method body chat v k l
              (subst (λ s. IsPaused until chat s.guard) (sym b.session) p))

      claimed-Unsent :
          (w : Plane F) (r : Claim × Plane F)
          → BeforeStep w r
          → IsPaused until chat w.session.guard
          → Every (Unsent w) (after_claim e timeout active idem m method body (some chat) write r)
      claimed-Unsent w (replay, v) b p = b.sent
      claimed-Unsent w (claimed, v) b p =
          Every-map {P = Unsent v} {Q = Unsent w} (λ r h. h ∙ b.sent) _
            (sent_out-Unsent v _ (bookkeep-Before m write (some chat) body v)
              (subst (λ s. IsPaused until chat s.guard) (sym b.session) p))
      claimed-Unsent w (reclaimed, v) b p =
          Every-map {P = Unsent v} {Q = Unsent w} (λ r h. h ∙ b.sent) _
            (sent_out-Unsent v _ (bookkeep-Before m write (some chat) body v)
              (subst (λ s. IsPaused until chat s.guard) (sym b.session) p))

    -- A write to a paused chat, with or without a key, is never sent.
    pub call_send-Unsent :
        (e : Env F) (timeout until : F) (idem : String) (method : Text) (body : Object F) (chat : ℤ)
        (w : Plane F)
        → method_kind (to_lower method) ≡ write
        → extract_chat_id body ≡ some chat
        → AllEarly until e.tries
        → IsPaused until chat w.session.guard
        → Every (Unsent w) (call_send e timeout idem method body w)
    unfolding call_send
    call_send-Unsent e timeout until idem method body chat w k x l p =
        let active = key_active idem write in
        rw (k, x)
          (claimed-Unsent e timeout until active idem (to_lower method) method body chat k l w _
            (claim_key-Before active e idem w) p)

    learned_guard :
        (e : Env F) (method : Text) (chat : Option ℤ) (counts : Bool) (body : String) (w : Plane F)
        → (settle_reply e method chat counts (replied 429 body) w).1.session.guard
          ≡ report_429 e.report_at e.report_made chat (retry_after body) w.session.guard
    unfolding settle_reply learn_429 record_backoff note_real_429 note_send
    learned_guard e method chat true body w = refl
    learned_guard e method chat false body w = refl

    -- After upstream answered a call for a chat with 429, a JSON call of a write whose body names that
    -- chat, its user names resolved, sends nothing if all its tries of admission come before the
    -- time that the answer asked for is over (5 seconds if it did not say), whatever operations of
    -- the guard came in between: TryAcquire, WaitTime and ChatSendState for any chats before that
    -- time, Report429 and RestoreBackoff, EnterPaidLane and ExitPaidLane.
    pub call_send-settle_reply :
        (e f : Env F) (timeout : F) (idem : String) (named method : Text) (reply : String)
        (counts : Bool) (body : Object F) (chat : ℤ) (ops : List GuardOp) (w : Plane F)
        → method_kind (to_lower method) ≡ write
        → extract_chat_id body ≡ some chat
        → All (Early (add e.report_at (retry_after reply))) ops
        → AllEarly (add e.report_at (retry_after reply)) f.tries
        → let v = (settle_reply e named (some chat) counts (replied 429 reply) w).1 in
          let u = with_guard (guard_run ops v.session.guard) v in
          Every (Unsent u) (call_send f timeout idem method body u)
    call_send-settle_reply e f timeout idem named method reply counts body chat ops w k x b l =
        let v = (settle_reply e named (some chat) counts (replied 429 reply) w).1 in
        let u = with_guard (guard_run ops v.session.guard) v in
        let until = add e.report_at (retry_after reply) in
        call_send-Unsent f timeout until idem method body chat u k x l (
          rw (learned_guard e named (some chat) counts reply w) (
            guard_run-IsPaused until chat ops _ b
              (report-IsPaused e.report_at e.report_made (retry_after reply) chat w.session.guard)))
