-- ===== src/Botapi/Proxy/Call.antt =====
-- Call of internal/botapi/proxy.go and resolveUsernameChat.
use tg_session_gateway.Prelude.{
  ℤ, Bool, true, false, not, ◌&&◌, Option, none, some, is_some, [], ◌∷◌, String, string_has_eq,
  pair_has_eq, ◌=?◌, find, put, ltb, if◌then◌else◌,
}
use tg_session_gateway.Float64.{Float64, eqf}
use tg_session_gateway.RateGuard.Method.{
  Text, text, text_eq, has_prefix, to_lower, contains, Kind, method_kind, text_has_eq,
}
use tg_session_gateway.RateGuard.Guard.{enter_paid_lane, exit_paid_lane}
use tg_session_gateway.Store.Idempotency.{
  Claim, claimed, reclaimed, replay, idempotency_claim, idempotency_finish, idempotency_fail,
}
use tg_session_gateway.Botapi.Value.{
  Value, null, boolean, float, integer, string, compound, Object, truthy, extract_chat_id, to_str,
  number_of,
}
use tg_session_gateway.Botapi.Typing.{stop, cancel_timeout, stop_by_callback_id}
use tg_session_gateway.Botapi.Typing.Updates.{id_text}
use tg_session_gateway.Botapi.Session.{gateway_owned}
use tg_session_gateway.Botapi.Proxy.{
  fields, Upstream, failed, replied, Decoded, result_true, conflict, replayed, paid_refused,
  Response, Plane, Env, is_write, with_guard, with_typing, ask, key_of, sub_field, is_true, Codec,
}
use tg_session_gateway.Botapi.Proxy.Forward.{admit_and_forward}

module _ ⦃N : Float64⦄ where
  open N use {F, zero, add, of_int, to_int}

  module _ ⦃C : Codec F⦄ where
    open C use {marshal, unmarshal, scan}

    abbrev pub release : Bool → Env F → String → Plane F → Plane F
    release done e idem w = record w {
      keys =
          if done
          then idempotency_finish e.settle_ok e.settle_at (key_of idem w) w.keys
          else idempotency_fail e.settle_ok (key_of idem w) w.keys;
    }

    -- The end of a call with a key: it is done below 400, and given back otherwise.
    abbrev pub settle_answer : Env F → String → Response × Plane F → Response × Plane F
    settle_answer e idem (r, w) = (r, release (ltb r.status 400) e idem w)

    unfoldable pub settle_key :
        (active : Bool) → Env F → String → Option (Response × Plane F) → Option (Response × Plane F)
    settle_key active e idem none = none
    settle_key false e idem (some a) = some a
    settle_key true e idem (some a) = some (settle_answer e idem a)

    abbrev pub leave_lane : Option (Response × Plane F) → Option (Response × Plane F)
    leave_lane none = none
    leave_lane (some (r, w)) = some (r, with_guard (exit_paid_lane w.session.guard) w)

    -- Call from the paid lane on.
    unfoldable pub send_on_lane :
        Env F
        → F
        → (active : Bool) → String
        → (m method : Text) → Object F
        → Option ℤ
        → Kind
        → Plane F
        → Option (Response × Plane F)
    send_on_lane e timeout active idem m method body chat kind w =
        let asked = truthy (find "allow_paid_broadcast" body) in
        let w' = with_guard (enter_paid_lane asked w.session.guard) w in
        leave_lane (
          if asked && not w.session.paid_broadcasts
          then some (
            record { status = 403; body = paid_refused },
            if active then release false e idem w' else w',
          )
          else settle_key active e idem (admit_and_forward e timeout m method body chat kind w'))

    -- The typing indicator; `inl` is a call that ends here.
    unfoldable pub send_action : Option Text → Option ℤ → Plane F → Bool × Plane F
    send_action none chat w = (false, w)
    send_action (some a) chat w =
        if text_eq a (text "cancel")
        then (true, with_typing (stop w.session.name chat w.typing) w)
        else if text_eq a (text "cancel_timeout")
        then (true, with_typing (cancel_timeout w.session.name chat w.typing) w)
        else (false, with_typing (stop w.session.name chat w.typing) w)

    abbrev pub lower_of : Option Text → Option Text
    lower_of none = none
    lower_of (some s) = some (to_lower s)

    unfoldable pub bookkeep : Text → Kind → Option ℤ → Object F → Plane F → Bool × Plane F
    bookkeep m kind chat body w =
        if text_eq m (text "sendchataction")
        then send_action (lower_of (to_str (find "action" body))) chat w
        else if text_eq m (text "answercallbackquery")
        then (
          false,
          with_typing
              (stop_by_callback_id w.session.name (id_text (find "callback_query_id" body))
                w.typing)
              w,
        )
        else if is_write kind && is_some chat
        then (false, with_typing (stop w.session.name chat w.typing) w)
        else (false, w)

    abbrev pub after_bookkeeping :
        Env F
        → F
        → (active : Bool) → String
        → (m method : Text) → Object F
        → Option ℤ
        → Kind
        → Bool × Plane F
        → Option (Response × Plane F)
    after_bookkeeping e timeout active idem m method body chat kind (true, w) =
        some (record { status = 200; body = result_true }, w)
    after_bookkeeping e timeout active idem m method body chat kind (false, w) =
        send_on_lane e timeout active idem m method body chat kind w

    -- What a claim makes of the call.
    unfoldable pub claim_key : (active : Bool) → Env F → String → Plane F → Claim × Plane F
    claim_key false e idem w = (claimed, w)
    claim_key true e idem w =
        let (c, keys) = idempotency_claim e.faults e.claim_at (key_of idem w) w.keys in
        (c, record w { keys = keys })

    abbrev pub after_claim :
        Env F
        → F
        → (active : Bool) → String
        → (m method : Text) → Object F
        → Option ℤ
        → Kind
        → Claim × Plane F
        → Option (Response × Plane F)
    after_claim e timeout active idem m method body chat kind (replay, w) =
        some (record { status = 200; body = replayed }, w)
    after_claim e timeout active idem m method body chat kind (claimed, w) =
        after_bookkeeping e timeout active idem m method body chat kind
          (bookkeep m kind chat body w)
    after_claim e timeout active idem m method body chat kind (reclaimed, w) =
        after_bookkeeping e timeout active idem m method body chat kind
          (bookkeep m kind chat body w)

    -- `idemKey != "" && kind == "write"`
    abbrev pub key_active : String → Kind → Bool
    key_active idem kind = not (idem =? "") && is_write kind

    -- Call on a method that is not the gateway's own, once its chat is resolved.
    unfoldable pub call_send :
        Env F → F → String → (method : Text) → Object F → Plane F → Option (Response × Plane F)
    call_send e timeout idem method body w =
        let m = to_lower method in
        let kind = method_kind m in
        let active = key_active idem kind in
        after_claim e timeout active idem m method body (extract_chat_id body) kind
          (claim_key active e idem w)

    abbrev pub numeric_id : Option (Decoded F) → F
    numeric_id none = zero
    numeric_id (some o) =
        if is_true (find "ok" o) then number_of scan (sub_field "id" (find "result" o)) else zero

    abbrev pub id_in : Upstream → F
    id_in (failed err) = zero
    id_in (replied status body) = numeric_id (unmarshal body)

    abbrev pub learn_name : Text → Object F → F → Plane F → Object F × Plane F
    learn_name name body id w = if eqf id zero then (body, w) else (
      put "chat_id" (integer (to_int id)) body,
      record w {
        session = record w.session { chat_names = put name (to_int id) w.session.chat_names };
      },
    )

    abbrev pub resolve_name : Env F → Text → Option ℤ → Object F → Plane F → Object F × Plane F
    resolve_name e name (some chat) body w = (put "chat_id" (integer chat) body, w)
    resolve_name e name none body w =
        learn_name name body (id_in e.chat_reply)
          (ask (text "getChat") (fields (("chat_id", string name) ∷ [])) w)

    -- resolveUsernameChat, on the field chat_id.
    unfoldable pub resolve_username :
        Env F → Option (Value F) → Object F → Plane F → Object F × Plane F
    resolve_username e (some (string name)) body w =
        if has_prefix (text "@") name
        then resolve_name e name (find name w.session.chat_names) body w
        else (body, w)
    resolve_username e (some (float x)) body w = (body, w)
    resolve_username e (some (integer n)) body w = (body, w)
    resolve_username e (some (boolean b)) body w = (body, w)
    resolve_username e (some null) body w = (body, w)
    resolve_username e (some (compound s)) body w = (body, w)
    resolve_username e none body w = (body, w)

    -- The gateway's own methods but getUpdates.
    abbrev pub owned_answer : Text → Response
    owned_answer m =
        if text_eq m (text "deletewebhook")
        then record { status = 200; body = result_true }
        else record { status = 403; body = conflict }

    -- Call with a JSON body. The answer to getUpdates is `poll`'s.
    unfoldable pub call :
        (poll : Object F → Plane F → Option (Response × Plane F))
        → Env F
        → F
        → String
        → (method : Text) → Object F
        → Plane F
        → Option (Response × Plane F)
    call poll e timeout idem method body w =
        let m = to_lower method in
        let (body', w') = resolve_username e (find "chat_id" body) body w in
        if contains gateway_owned m
        then if text_eq m (text "getupdates") then poll body' w' else some (owned_answer m, w')
        else call_send e timeout idem method body' w'
