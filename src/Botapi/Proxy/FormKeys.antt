-- ===== src/Botapi/Proxy/FormKeys.antt =====
-- The Idempotency-Key of a form that CallRawWithChat of internal/botapi/proxy.go forwards.
use tg_session_gateway.Prelude.{
  ℤ, ◌≡◌, refl, sym, ◌∙◌, ap, subst, true, false, Option, List, String, string_has_eq, pair_has_eq,
  All, arith,
}
use tg_session_gateway.Float64.{Float64}
use tg_session_gateway.RateGuard.Method.{Text, to_lower, Kind, fast, read, write, method_kind}
use tg_session_gateway.RateGuard.Guard.{try_acquire}
use tg_session_gateway.Store.Idempotency.{
  Claim, claimed, reclaimed, replay, proceeds, idempotency_claim,
}
use tg_session_gateway.Store.Idempotency.Window.{KeyOp, key_run, at_time, gives_up, WithinMinute}
use tg_session_gateway.Store.Idempotency.Contract.{claim-key_run-claim}
use tg_session_gateway.Botapi.Session.{note_synthetic_429}
use tg_session_gateway.Botapi.Proxy.{replayed, Plane, Try, Env, is_write, key_of, Codec}
use tg_session_gateway.Botapi.Proxy.Call.{claim_key, key_active}
use tg_session_gateway.Botapi.Proxy.Verbatim.{raw_send, raw_after_claim, call_raw}
use tg_session_gateway.Botapi.Proxy.Settling.{SameKeys, claimed_plane}

module _ ⦃N : Float64⦄ where
  open N use {F}

  module _ ⦃C : Codec F⦄ where
    call_raw-replay :
        (e : Env F) (t : Try F) (idem : String) (method : Text) (payload : String) (chat : Option ℤ)
        (w : Plane F)
        → key_active idem (method_kind (to_lower method)) ≡ true
        → (idempotency_claim e.faults e.claim_at (key_of idem w) w.keys).0 ≡ replay
        → call_raw e t idem method payload chat w
          ≡ (record { status = 200; body = replayed }, claimed_plane e idem w)
    unfolding call_raw claim_key
    call_raw-replay e t idem method payload chat w a c = rw (a, c) refl

    raw_of_claim :
        (e : Env F) (t : Try F) (idem : String) (m method : Text) (payload : String)
        (chat : Option ℤ) (kind : Kind) (c : Claim) (v : Plane F)
        → proceeds c ≡ true
        → raw_after_claim e t true idem m method payload chat kind (c, v)
          ≡ raw_send e t true idem m method payload chat kind v
    raw_of_claim e t idem m method payload chat kind claimed v p = refl
    raw_of_claim e t idem m method payload chat kind reclaimed v p = refl
    raw_of_claim e t idem m method payload chat kind replay v p = absurd (ground (arith, p))

    -- A call whose claim goes through.
    call_raw-proceeds :
        (e : Env F) (t : Try F) (idem : String) (method : Text) (payload : String) (chat : Option ℤ)
        (w : Plane F)
        → key_active idem (method_kind (to_lower method)) ≡ true
        → proceeds (idempotency_claim e.faults e.claim_at (key_of idem w) w.keys).0 ≡ true
        → call_raw e t idem method payload chat w
          ≡ raw_send e t true idem
              (to_lower method)
              method
              payload
              chat
              (method_kind (to_lower method))
              (claimed_plane e idem w)
    unfolding call_raw claim_key
    call_raw-proceeds e t idem method payload chat w a p = rw a (
        raw_of_claim e t idem (to_lower method) method payload chat (method_kind (to_lower method))
          (idempotency_claim e.faults e.claim_at (key_of idem w) w.keys).0 (claimed_plane e idem w)
          p)

    refused_send-SameKeys :
        (e : Env F) (t : Try F) (idem : String) (m method : Text) (payload : String)
        (chat : Option ℤ) (kind : Kind) (w : Plane F)
        → is_write kind ≡ true
        → (try_acquire t.now t.made m chat w.session.guard).1 ≡ false
        → SameKeys w (raw_send e t true idem m method payload chat kind w).1
    unfolding raw_send note_synthetic_429
    refused_send-SameKeys e t idem m method payload chat kind w k h =
        rw (k, h) (record { keys = refl; name = refl })

    active_write :
        (idem : String) (kind : Kind) → key_active idem kind ≡ true → is_write kind ≡ true
    active_write idem fast h = ground (arith, h)
    active_write idem read h = ground (arith, h)
    active_write idem write h = refl

    -- A form that the pacing refuses (429, with a time to retry after) keeps its key claimed: a
    -- retry of the same key within the next minute is answered 200 as a replay and nothing is sent,
    -- whatever other operations of the table, but a failure of this key, ran in between.
    pub call_raw-call_raw :
        (e f : Env F) (t u : Try F) (idem : String) (method : Text) (payload : String)
        (chat : Option ℤ) (w : Plane F) (ops : List (KeyOp F))
        → key_active idem (method_kind (to_lower method)) ≡ true
        → proceeds (idempotency_claim e.faults e.claim_at (key_of idem w) w.keys).0 ≡ true
        → (try_acquire t.now t.made (to_lower method) chat w.session.guard).1 ≡ false
        → All
            (λ op. WithinMinute e.claim_at (at_time op) × (gives_up (key_of idem w) op ≡ false))
            ops
        → WithinMinute e.claim_at f.claim_at
        → let v = (call_raw e t idem method payload chat w).1 in
          let later = record v { keys = key_run ops v.keys } in
          call_raw f u idem method payload chat later
          ≡ (record { status = 200; body = replayed }, claimed_plane f idem later)
    call_raw-call_raw e f t u idem method payload chat w ops a p h l m =
        let v = (call_raw e t idem method payload chat w).1 in
        let later = record v { keys = key_run ops v.keys } in
        let kind = method_kind (to_lower method) in
        let s : SameKeys (claimed_plane e idem w) v =
          subst (λ x. SameKeys (claimed_plane e idem w) x.1)
            (sym (call_raw-proceeds e t idem method payload chat w a p))
            (refused_send-SameKeys e t idem (to_lower method) method payload chat kind
              (claimed_plane e idem w) (active_write idem kind a) h) in
        call_raw-replay f u idem method payload chat later a (
          ap (λ n. (idempotency_claim f.faults f.claim_at (n, idem) later.keys).0) s.name
          ∙ ap (λ x. (idempotency_claim f.faults f.claim_at (key_of idem w) (key_run ops x)).0)
              s.keys
          ∙ claim-key_run-claim e.faults f.faults e.claim_at f.claim_at (key_of idem w) ops w.keys p
              l m)
