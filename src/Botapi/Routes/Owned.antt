-- ===== src/Botapi/Routes/Owned.antt =====
-- The gateway's own methods over HTTP, in internal/botapi/app.go.
use tg_session_gateway.Prelude.{
  ◌≡◌, refl, true, false, Option, none, some, List, ltb, Every, if_both, inl,
}
use tg_session_gateway.Float64.{Float64}
use tg_session_gateway.RateGuard.Method.{Text, text, has_prefix, to_lower, contains}
use tg_session_gateway.Store.Queue.{Wake}
use tg_session_gateway.Botapi.Value.{Object}
use tg_session_gateway.Botapi.Session.{gateway_owned}
use tg_session_gateway.Botapi.Proxy.{Response, Plane, Try, Env, Codec}
use tg_session_gateway.Botapi.Proxy.Owned.{Looked, call-OnlyLookup}
use tg_session_gateway.Botapi.Routes.{
  HttpRequest, Decoders, max_form_body, max_json_body, strings, or_empty, written, form_route,
  json_route, call_route,
}

module _ ⦃N : Float64⦄ where
  open N use {F}

  module _ ⦃C : Codec F⦄ where
    written-Looked :
        (w : Plane F) (o : Option (Response × Plane F))
        → Every (Looked w) o
        → Every (Looked w) (written o)
    written-Looked w none h = tt
    written-Looked w (some (r, v)) h = h

    -- A request for one of the gateway's own methods, as JSON or as a form, in whatever case the
    -- method is spelled, is never forwarded: the client is asked for nothing but, at most, the
    -- number of a chat that the body names as a user. Multipart bodies are left out.
    pub call_route-OnlyLookup :
        (d : Decoders F) (ws : List (Wake F)) (e : Env F) (timeout : F) (t : Try F)
        (r : HttpRequest) (method : Text) (w : Plane F)
        → has_prefix (text "multipart/") r.content_type ≡ false
        → contains gateway_owned (to_lower method) ≡ true
        → Every (Looked w) (call_route d ws e timeout t r method w)
    unfolding call_route form_route json_route
    call_route-OnlyLookup d ws e timeout t r method w n h =
        let served = λ (body : Object F).
          written-Looked w _ (call-OnlyLookup ws e timeout r.idempotency_key method body w h) in
        rw (n, h)
          (if_both (Every (Looked w))
            (has_prefix (text "application/x-www-form-urlencoded") r.content_type) _ _
            (if_both (Every (Looked w)) (ltb max_form_body r.size) _ _ (inl refl)
              (served (strings (d.parse_query r.body))))
            (if_both (Every (Looked w)) (ltb max_json_body r.size) _ _ (inl refl)
              (served (or_empty (d.parse_json r.body)))))
