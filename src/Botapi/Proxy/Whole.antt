-- ===== src/Botapi/Proxy/Whole.antt =====
-- Call of internal/botapi/proxy.go as a whole, for the methods that it forwards: resolveUsernameChat
-- and then the rest.
use tg_session_gateway.Prelude.{
  ℤ, ◌≡◌, refl, sym, ◌∙◌, ap, true, false, Option, none, some, List, String, string_has_eq,
  pair_has_eq, find, ltb, Every, All, if_both,
}
use tg_session_gateway.Float64.{Float64, eqf}
use tg_session_gateway.RateGuard.Method.{
  Text, text, text_eq, has_prefix, to_lower, contains, method_kind, text_has_eq,
}
use tg_session_gateway.Store.Idempotency.{ClaimFaults, claimed, proceeds, idempotency_claim}
use tg_session_gateway.Store.Idempotency.Window.{KeyOp, key_run, at_time, WithinTtl}
use tg_session_gateway.Botapi.Value.{Value, null, boolean, float, integer, string, compound, Object}
use tg_session_gateway.Botapi.Session.{gateway_owned}
use tg_session_gateway.Botapi.Proxy.{Response, replayed, Plane, Env, key_of, Codec}
use tg_session_gateway.Botapi.Proxy.Call.{
  key_active, id_in, resolve_name, resolve_username, call_send, call,
}
use tg_session_gateway.Botapi.Proxy.Settling.{
  SameKeys, SameKeys-same, Ends, claimed_plane, call_send-Ends,
}
use tg_session_gateway.Botapi.Proxy.Retry.{call_send-replay, claim-call_send_below, claim-call_send}
use tg_session_gateway.Botapi.Proxy.Owned.{OnlyLookup, resolve_username-Looked}

module _ ⦃N : Float64⦄ where
  open N use {F, zero}

  Keeps : Plane F → Object F × Plane F → Type 0
  Keeps w r = SameKeys w r.1

  module _ ⦃C : Codec F⦄ where
    resolve_name-Keeps :
        (e : Env F) (name : Text) (chat : Option ℤ) (body : Object F) (w : Plane F)
        → Keeps w (resolve_name e name chat body w)
    unfolding Keeps
    resolve_name-Keeps e name (some chat) body w = SameKeys-same w
    resolve_name-Keeps e name none body w =
        if_both (Keeps w) (eqf (id_in e.chat_reply) zero) _ _ (record { keys = refl; name = refl })
          (record { keys = refl; name = refl })

    resolve_username-Keeps :
        (e : Env F) (v : Option (Value F)) (body : Object F) (w : Plane F)
        → Keeps w (resolve_username e v body w)
    unfolding resolve_username Keeps
    resolve_username-Keeps e (some (string name)) body w =
        if_both (Keeps w) (has_prefix (text "@") name) _ _
          (resolve_name-Keeps e name (find name w.session.chat_names) body w) (SameKeys-same w)
    resolve_username-Keeps e (some (float x)) body w = SameKeys-same w
    resolve_username-Keeps e (some (integer n)) body w = SameKeys-same w
    resolve_username-Keeps e (some (boolean b)) body w = SameKeys-same w
    resolve_username-Keeps e (some null) body w = SameKeys-same w
    resolve_username-Keeps e (some (compound s)) body w = SameKeys-same w
    resolve_username-Keeps e none body w = SameKeys-same w

    -- The plane after resolveUsernameChat.
    abbrev pub resolved : Env F → Object F → Plane F → Plane F
    resolved e body w = (resolve_username e (find "chat_id" body) body w).1

    resolved-SameKeys : (e : Env F) (body : Object F) (w : Plane F) → SameKeys w (resolved e body w)
    unfolding Keeps
    resolved-SameKeys e body w = resolve_username-Keeps e (find "chat_id" body) body w

    resolved-proceeds :
        (e : Env F) (idem : String) (body : Object F) (w : Plane F)
        → proceeds (idempotency_claim e.faults e.claim_at (key_of idem w) w.keys).0 ≡ true
        → let v = resolved e body w in
          proceeds (idempotency_claim e.faults e.claim_at (key_of idem v) v.keys).0 ≡ true
    resolved-proceeds e idem body w c =
        let v = resolved e body w in
        let same = resolved-SameKeys e body w in
        ap (λ n. proceeds (idempotency_claim e.faults e.claim_at (n, idem) v.keys).0) same.name
        ∙ ap (λ t. proceeds (idempotency_claim e.faults e.claim_at (key_of idem w) t).0) same.keys
        ∙ c

    module _ (poll : Object F → Plane F → Option (Response × Plane F)) where
      call_forwarded :
          (e : Env F) (timeout : F) (idem : String) (method : Text) (body : Object F) (w : Plane F)
          → contains gateway_owned (to_lower method) ≡ false
          → call poll e timeout idem method body w
            ≡ call_send e timeout idem method
                (resolve_username e (find "chat_id" body) body w).0
                (resolved e body w)
      unfolding call
      call_forwarded e timeout idem method body w h = rw h refl

      -- Every answer of Call to a write with an Idempotency-Key that it forwards. First comes
      -- resolveUsernameChat, which may ask for getChat and keep the answer. Then, if the key was
      -- seen, the answer says so and nothing but the claim has happened; otherwise the key is
      -- finished when the status is below 400 and given back when it is not, if the statement
      -- for that goes through, on every path,
      -- refusals and upstream errors included. The method sendChatAction is left out, whose two
      -- signals to the typing indicator end before that.
      pub call-Ends :
          (e : Env F) (timeout : F) (idem : String) (method : Text) (body : Object F) (w : Plane F)
          → contains gateway_owned (to_lower method) ≡ false
          → key_active idem (method_kind (to_lower method)) ≡ true
          → text_eq (to_lower method) (text "sendchataction") ≡ false
          → let v = resolved e body w in
            Every
              (Ends e idem
                (idempotency_claim e.faults e.claim_at (key_of idem v) v.keys).0
                (claimed_plane e idem v))
              (call poll e timeout idem method body w)
      call-Ends e timeout idem method body w o a h =
          let (body', v) = resolve_username e (find "chat_id" body) body w in
          rw (call_forwarded e timeout idem method body w o)
            (call_send-Ends e timeout idem method body' v a h)

      -- After a Call of a write with an Idempotency-Key, other than sendChatAction, whose claim went
      -- through, that ended below 400 and was finished in the table: a Call of a forwarded write
      -- with the same key within the TTL is answered as a replay, whatever operations of the table
      -- on any keys ran in between. It changes nothing but its claim and what resolveUsernameChat
      -- does before it: the client is asked for nothing but, at most, one getChat, so nothing is
      -- sent twice.
      pub call-call :
          (e f : Env F) (timeout : F) (idem : String) (method again : Text) (body other : Object F)
          (w v : Plane F) (r : Response) (ops : List (KeyOp F))
          → contains gateway_owned (to_lower method) ≡ false
          → contains gateway_owned (to_lower again) ≡ false
          → key_active idem (method_kind (to_lower method)) ≡ true
          → key_active idem (method_kind (to_lower again)) ≡ true
          → text_eq (to_lower method) (text "sendchataction") ≡ false
          → proceeds (idempotency_claim e.faults e.claim_at (key_of idem w) w.keys).0 ≡ true
          → call poll e timeout idem method body w ≡ some (r, v)
          → ltb r.status 400 ≡ true
          → e.settle_ok ≡ true
          → All (λ op. WithinTtl e.settle_at (at_time op)) ops
          → WithinTtl e.settle_at f.claim_at
          → let u = record v { keys = key_run ops v.keys } in
            let x = claimed_plane f idem (resolved f other u) in
            (call poll f timeout idem again other u
              ≡ some (record { status = 200; body = replayed }, x))
            × OnlyLookup u x
      call-call e f timeout idem method again body other w v r ops o p a b h c q st ok l m =
          let u = record v { keys = key_run ops v.keys } in
          let second = resolved-SameKeys f other u in
          let claims = resolved-proceeds e idem body w c in
          let seen =
            claim-call_send_below e f timeout idem method _ (resolved e body w) v r ops a h claims
              (sym (call_forwarded e timeout idem method body w o) ∙ q) st ok l m in
          (
            call_forwarded f timeout idem again other u p
                ∙ call_send-replay f timeout idem again _ (resolved f other u) b (
                    ap
                      (λ n.
                        (idempotency_claim f.faults f.claim_at (n, idem)
                          (resolved f other u).keys).0)
                      second.name
                    ∙ ap (λ t. (idempotency_claim f.faults f.claim_at (key_of idem v) t).0)
                        second.keys
                    ∙ seen),
            resolve_username-Looked f (find "chat_id" other) other u,
          )

      -- A Call of a forwarded write with an Idempotency-Key, other than sendChatAction, whose claim
      -- went through, that ends with a status of 400 or above, a refusal or an upstream error, gives
      -- its key back, if that reaches the table: the next claim of the key, at any time, is a new
      -- one, if its INSERT goes through, so the key does not suppress a retry.
      pub claim-call :
          (e : Env F) (timeout : F) (idem : String) (method : Text) (body : Object F)
          (w v : Plane F) (r : Response) (g : ClaimFaults) (at : F)
          → contains gateway_owned (to_lower method) ≡ false
          → key_active idem (method_kind (to_lower method)) ≡ true
          → text_eq (to_lower method) (text "sendchataction") ≡ false
          → proceeds (idempotency_claim e.faults e.claim_at (key_of idem w) w.keys).0 ≡ true
          → call poll e timeout idem method body w ≡ some (r, v)
          → ltb r.status 400 ≡ false
          → e.settle_ok ≡ true
          → g.insert_ok ≡ true
          → (idempotency_claim g at (key_of idem v) v.keys).0 ≡ claimed
      claim-call e timeout idem method body w v r g at o a h c q st ok i =
          claim-call_send e timeout idem method _ (resolved e body w) v r g at a h
            (resolved-proceeds e idem body w c)
            (sym (call_forwarded e timeout idem method body w o) ∙ q) st ok i
