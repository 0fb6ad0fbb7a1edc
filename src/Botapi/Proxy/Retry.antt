-- ===== src/Botapi/Proxy/Retry.antt =====
-- Retries of a call with an Idempotency-Key in internal/botapi/proxy.go, over the table of
-- internal/store/gateway.go.
use tg_session_gateway.Prelude.{
  ◌≡◌, refl, ◌∙◌, ap, subst, true, false, some, List, String, string_has_eq, pair_has_eq, ltb,
  Every, All, arith,
}
use tg_session_gateway.Float64.{Float64}
use tg_session_gateway.RateGuard.Method.{Text, text, text_eq, to_lower, method_kind}
use tg_session_gateway.Store.Idempotency.{
  pending, Claim, claimed, reclaimed, replay, ClaimFaults, proceeds, idempotency_claim,
}
use tg_session_gateway.Store.Idempotency.Window.{KeyOp, key_run, at_time, WithinTtl}
use tg_session_gateway.Store.Idempotency.Contract.{finish-key_run-claim}
use tg_session_gateway.Store.Idempotency.Retry.{row_of_claim, claim-fail-claim}
use tg_session_gateway.Botapi.Value.{Object}
use tg_session_gateway.Botapi.Proxy.{Response, replayed, Plane, Env, key_of, Codec}
use tg_session_gateway.Botapi.Proxy.Call.{claim_key, key_active, call_send}
use tg_session_gateway.Botapi.Proxy.Settling.{Settled, Ends, claimed_plane, call_send-Ends}

module _ ⦃N : Float64⦄ where
  open N use {F}

  module _ ⦃C : Codec F⦄ where
    -- A claim that is a replay answers the call.
    pub call_send-replay :
        (e : Env F) (timeout : F) (idem : String) (method : Text) (body : Object F) (w : Plane F)
        → key_active idem (method_kind (to_lower method)) ≡ true
        → (idempotency_claim e.faults e.claim_at (key_of idem w) w.keys).0 ≡ replay
        → call_send e timeout idem method body w
          ≡ some (record { status = 200; body = replayed }, claimed_plane e idem w)
    unfolding call_send claim_key
    call_send-replay e timeout idem method body w a c = rw (a, c) refl

    Settled-of_Ends :
        (e : Env F) (idem : String) (c : Claim) (v : Plane F) (r : Response × Plane F)
        → proceeds c ≡ true
        → Ends e idem c v r
        → Settled e idem v r
    Settled-of_Ends e idem claimed v r p s = s
    Settled-of_Ends e idem reclaimed v r p s = s
    Settled-of_Ends e idem replay v r p s = absurd (ground (arith, p))

    -- What the claim and the end of an answered call leave in the table.
    call_send-Settled :
        (e : Env F) (timeout : F) (idem : String) (method : Text) (body : Object F) (w v : Plane F)
        (r : Response)
        → key_active idem (method_kind (to_lower method)) ≡ true
        → text_eq (to_lower method) (text "sendchataction") ≡ false
        → proceeds (idempotency_claim e.faults e.claim_at (key_of idem w) w.keys).0 ≡ true
        → call_send e timeout idem method body w ≡ some (r, v)
        → Settled e idem (claimed_plane e idem w) (r, v)
    call_send-Settled e timeout idem method body w v r a h p q =
        let c = (idempotency_claim e.faults e.claim_at (key_of idem w) w.keys).0 in
        Settled-of_Ends e idem c (claimed_plane e idem w) (r, v) p
          (subst (Every (Ends e idem c (claimed_plane e idem w))) q
            (call_send-Ends e timeout idem method body w a h))

    -- A write with an Idempotency-Key whose chat is resolved, whose claim went through, and which
    -- ends with a status of 400 or above, a refusal or an upstream error, gives its key back, if that
    -- reaches the table: the next claim of the key, at any time, is a new one, if its INSERT goes
    -- through, so the key does not suppress a retry. The method sendChatAction is left out.
    pub claim-call_send :
        (e : Env F) (timeout : F) (idem : String) (method : Text) (body : Object F) (w v : Plane F)
        (r : Response) (g : ClaimFaults) (at : F)
        → key_active idem (method_kind (to_lower method)) ≡ true
        → text_eq (to_lower method) (text "sendchataction") ≡ false
        → proceeds (idempotency_claim e.faults e.claim_at (key_of idem w) w.keys).0 ≡ true
        → call_send e timeout idem method body w ≡ some (r, v)
        → ltb r.status 400 ≡ false
        → e.settle_ok ≡ true
        → g.insert_ok ≡ true
        → (idempotency_claim g at (key_of idem v) v.keys).0 ≡ claimed
    claim-call_send e timeout idem method body w v r g at a h p q st ok i =
        let s = call_send-Settled e timeout idem method body w v r a h p q in
        let t1 = (idempotency_claim e.faults e.claim_at (key_of idem w) w.keys).1 in
        ap (λ n. (idempotency_claim g at (n, idem) v.keys).0) s.name
        ∙ ap (λ t. (idempotency_claim g at (key_of idem w) t).0) s.keys
        ∙ rw (st, ok) (claim-fail-claim e.faults g e.claim_at at (key_of idem w) w.keys p i)

    -- The key of a call that ended below 400, and was finished in the table, is a replay within the
    -- TTL, whatever operations of the table on any keys ran in between.
    pub claim-call_send_below :
        (e f : Env F) (timeout : F) (idem : String) (method : Text) (body : Object F)
        (w v : Plane F) (r : Response) (ops : List (KeyOp F))
        → key_active idem (method_kind (to_lower method)) ≡ true
        → text_eq (to_lower method) (text "sendchataction") ≡ false
        → proceeds (idempotency_claim e.faults e.claim_at (key_of idem w) w.keys).0 ≡ true
        → call_send e timeout idem method body w ≡ some (r, v)
        → ltb r.status 400 ≡ true
        → e.settle_ok ≡ true
        → All (λ op. WithinTtl e.settle_at (at_time op)) ops
        → WithinTtl e.settle_at f.claim_at
        → (idempotency_claim f.faults f.claim_at (key_of idem v) (key_run ops v.keys)).0 ≡ replay
    claim-call_send_below e f timeout idem method body w v r ops a h p q st ok l m =
        let s = call_send-Settled e timeout idem method body w v r a h p q in
        let t1 = (idempotency_claim e.faults e.claim_at (key_of idem w) w.keys).1 in
        ap (λ n. (idempotency_claim f.faults f.claim_at (n, idem) (key_run ops v.keys)).0) s.name
        ∙ ap (λ t. (idempotency_claim f.faults f.claim_at (key_of idem w) (key_run ops t)).0) s.keys
        ∙ rw (st, ok)
            (finish-key_run-claim f.faults e.settle_at f.claim_at (key_of idem w)
              (record { state = pending; seen_at = e.claim_at }) ops t1
              (row_of_claim e.faults e.claim_at (key_of idem w) w.keys p) l m)
