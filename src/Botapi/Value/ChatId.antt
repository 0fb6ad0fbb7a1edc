-- ===== src/Botapi/Value/ChatId.antt =====
-- extractChatID of internal/botapi/proxy.go: the same chat in whichever way a consumer writes it.
use tg_session_gateway.Prelude.{
  pos, negsuc, ◌≤ℤ◌, ◌≡◌, refl, true, some, find-put_self, put, string_has_eq, ◌∙◌,
}
use tg_session_gateway.Float64.{Float64, eqf}
use tg_session_gateway.RateGuard.Method.{Text}
use tg_session_gateway.Botapi.Value.{
  Value, float, string, Object, max_int64, itoa64, is_candidate, chat_field, chat_id_of,
  extract_chat_id,
}
use tg_session_gateway.Botapi.Value.Decimal.{parse_int-itoa64}

module _ ⦃N : Float64⦄ where
  open N use {F, of_int, to_int}

  pub extract_of_candidate :
      (v : Value F) (body : Object F)
      → is_candidate (some v) ≡ true
      → extract_chat_id (put "chat_id" v body) ≡ chat_id_of (some v)
  unfolding extract_chat_id chat_field
  extract_of_candidate v body h = rw (find-put_self "chat_id" v body, h)

  -- A consumer may write the chat as a JSON number, which is decoded to a float64, or as the decimal
  -- text of that float64's value, whatever else is in the body: if the value is whole and an
  -- int64 above the least one, extractChatID finds the same chat, so the same bucket paces both.
  pub extract_chat_id-itoa64 :
      (x : F) (body : Object F)
      → eqf x (of_int (to_int x)) ≡ true
      → negsuc 0x7fff_ffff_ffff_fffe ≤ℤ to_int x
      → to_int x ≤ℤ pos max_int64
      → (t : Text) × (itoa64 (to_int x) ≡ some t)
        × (extract_chat_id (put "chat_id" (string t) body) ≡ some (to_int x))
        × (extract_chat_id (put "chat_id" (float x) body) ≡ some (to_int x))
  unfolding is_candidate chat_id_of
  extract_chat_id-itoa64 x body whole l u =
      let (t, e, i, p) = parse_int-itoa64 (to_int x) l u in
      (
        t,
        e,
        extract_of_candidate (string t) body refl ∙ rw i p,
        extract_of_candidate (float x) body refl ∙ rw whole refl,
      )
