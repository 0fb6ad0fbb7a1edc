-- ===== src/Botapi/Routes.antt =====
-- internal/botapi/app.go: from a request's path and body to the proxy. The decoders of net/url and
-- encoding/json are parameters; readers, headers and writers are not modelled.
pub mod Paths
pub mod Owned
use tg_session_gateway.Prelude.{
  ℤ, pos, ltb_ℤ, leb_ℤ, ℕ, ◌*◌, ◌&&◌, Option, none, some, List, [], ◌∷◌, map, String, string_has_eq,
  find, ltb, ◌==◌, if◌then◌else◌,
}
use tg_session_gateway.Float64.{Float64}
use tg_session_gateway.RateGuard.Method.{Text, text, text_eq, has_prefix, to_lower, contains}
use tg_session_gateway.Store.Queue.{Wake}
use tg_session_gateway.Botapi.Value.{string, Object, parse_int}
use tg_session_gateway.Botapi.Session.{Session, gateway_owned}
use tg_session_gateway.Botapi.Proxy.{Response, Plane, Try, Env, Codec}
use tg_session_gateway.Botapi.Proxy.Call.{call}
use tg_session_gateway.Botapi.Proxy.Verbatim.{get_updates, call_raw, forward_multipart}

-- strings.TrimPrefix, the prefix first, of a text that has it or not.
abbrev pub drop_prefix : Text → Text → Text
drop_prefix [] t = t
drop_prefix (a ∷ p) [] = []
drop_prefix (a ∷ p) (b ∷ t) = drop_prefix p t

abbrev pub trim_prefix : Text → Text → Text
trim_prefix p t = if has_prefix p t then drop_prefix p t else t

abbrev pub push_left : ℕ → Option (Text × Text) → Option (Text × Text)
push_left c none = none
push_left c (some (a, b)) = some (c ∷ a, b)

-- The text before the first slash, and the text behind it.
unfoldable pub cut_slash : Text → Option (Text × Text)
cut_slash [] = none
cut_slash (c ∷ t) = let rest = cut_slash t in if c == b'/' then some ([], t) else push_left c rest

abbrev pub after_bot : Text → Option (Text × Text)
after_bot p = if has_prefix (text "bot") p then cut_slash (drop_prefix (text "bot") p) else none

-- splitBotTokenPath
unfoldable pub split_bot_token_path : (path prefix : Text) → Option (Text × Text)
split_bot_token_path path prefix = after_bot (trim_prefix (text "/") (trim_prefix prefix path))

-- FindByToken, over the sessions in some order.
unfoldable pub find_by_token : {F : Type 0} → Text → List (String × Session F) → Option (Session F)
find_by_token token [] = none
find_by_token token ((name, s) ∷ ss) =
    let rest = find_by_token token ss in if text_eq (text s.token) token then some s else rest

-- A request, its body already read; `head` is what was read of it as bytes.
pub record HttpRequest : Type 0 where
  pub content_type : Text
  pub content_length : ℤ
  pub size : ℕ
  pub body : String
  pub head : Text
  pub idempotency_key : String

-- What is written: an answer of the proxy, or 413.
pub data Written : Type 0 where
  answer : Response → Written
  too_large : Written

abbrev pub max_multipart_body : ℕ
max_multipart_body = 64 * 1024 * 1024

abbrev pub max_form_body : ℕ
max_form_body = 1024 * 1024

abbrev pub max_json_body : ℕ
max_json_body = 8 * 1024 * 1024

-- url.ParseQuery, by the first value of each name, and the JSON of a body.
pub record Decoders (F : Type 0) : Type 0 where
  pub parse_query : String → Option (List (String × Text))
  pub parse_json : String → Option (Object F)

abbrev pub non_empty : Option Text → Option Text
non_empty none = none
non_empty (some []) = none
non_empty (some (c ∷ t)) = some (c ∷ t)

abbrev pub parsed : Option Text → Option ℤ
parsed none = none
parsed (some t) = parse_int t

abbrev pub form_field : Option (List (String × Text)) → Option Text
form_field none = none
form_field (some vals) = find "chat_id" vals

-- parseFormBody, of what ParseQuery gives.
abbrev pub strings : {F : Type 0} → Option (List (String × Text)) → Object F
strings none = []
strings (some vals) = map (λ v. (v.0, string v.1)) vals

abbrev pub or_empty : {F : Type 0} → Option (Object F) → Object F
or_empty none = []
or_empty (some o) = o

abbrev pub written : {F : Type 0} → Option (Response × Plane F) → Option (Written × Plane F)
written none = none
written (some (r, w)) = some (answer r, w)

module _ ⦃N : Float64⦄ where
  open N use {F}

  module _ ⦃C : Codec F⦄ (d : Decoders F) where
    open d use {parse_query, parse_json}

    -- formChatID
    unfoldable pub form_chat_id : String → Option ℤ
    form_chat_id raw = parsed (non_empty (form_field (parse_query raw)))

    -- Call, of a JSON object.
    abbrev pub json_call :
        List (Wake F)
        → Env F
        → F
        → HttpRequest
        → Text
        → Object F
        → Plane F
        → Option (Written × Plane F)
    json_call ws e timeout r method body w =
        written (call (get_updates ws) e timeout r.idempotency_key method body w)

    -- A multipart body, streamed or read.
    unfoldable pub multipart_route :
        Env F → Try F → HttpRequest → Text → Plane F → Option (Written × Plane F)
    multipart_route e t r method w =
        if ltb_ℤ (pos 0) r.content_length && leb_ℤ r.content_length (pos max_multipart_body)
        then written (some (forward_multipart e t method r.head r.body w))
        else if ltb max_multipart_body r.size
        then some (too_large, w)
        else written (some (forward_multipart e t method r.head r.body w))

    unfoldable pub form_route :
        List (Wake F)
        → Env F
        → F
        → Try F
        → HttpRequest
        → Text
        → Plane F
        → Option (Written × Plane F)
    form_route ws e timeout t r method w =
        if ltb max_form_body r.size
        then some (too_large, w)
        else if contains gateway_owned (to_lower method)
        then json_call ws e timeout r method (strings (parse_query r.body)) w
        else written (some (call_raw e t r.idempotency_key method r.body (form_chat_id r.body) w))

    -- A body that is not JSON is an empty object.
    unfoldable pub json_route :
        List (Wake F) → Env F → F → HttpRequest → Text → Plane F → Option (Written × Plane F)
    json_route ws e timeout r method w =
        if ltb max_json_body r.size
        then some (too_large, w)
        else json_call ws e timeout r method (or_empty (parse_json r.body)) w

    -- callRoute
    unfoldable pub call_route :
        List (Wake F)
        → Env F
        → F
        → Try F
        → HttpRequest
        → Text
        → Plane F
        → Option (Written × Plane F)
    call_route ws e timeout t r method w =
        if has_prefix (text "multipart/") r.content_type
        then multipart_route e t r method w
        else if has_prefix (text "application/x-www-form-urlencoded") r.content_type
        then form_route ws e timeout t r method w
        else json_route ws e timeout r method w
