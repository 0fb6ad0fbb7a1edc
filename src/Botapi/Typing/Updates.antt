-- ===== src/Botapi/Typing/Updates.antt =====
-- internal/botapi/typing.go: what a batch of updates starts, and the callbacks it notes.
use tg_session_gateway.Prelude.{
  ℤ, Option, none, some, List, [], ◌∷◌, String, string_has_eq, put, if◌then◌else◌,
}
use tg_session_gateway.Float64.{Float64}
use tg_session_gateway.RateGuard.Method.{Text, text_has_eq}
use tg_session_gateway.RateGuard.Guard.{Guard, SendState, paused, empty, ok, chat_send_state}
use tg_session_gateway.Botapi.Value.{Value, null, float, integer, string, boolean, compound, to_str}
use tg_session_gateway.Botapi.Typing.{
  Settings, Patch, ChatKey, Typing, chat_key_has_eq, effective, start,
}
use tg_session_gateway.Botapi.Typing.Loop.{excluded}

-- What OnUpdates reads of an update; a field that is missing or of another type is `none`.
pub record Chat (F : Type 0) : Type 0 where
  pub id : Option (Value F)

pub record Message (F : Type 0) : Type 0 where
  pub chat : Option (Chat F)

pub record CallbackQuery (F : Type 0) : Type 0 where
  pub id : Option (Value F)
  pub message : Option (Message F)

pub record UserAction (F : Type 0) : Type 0 where
  pub message : Option (Message F)
  pub edited_message : Option (Message F)
  pub callback_query : Option (CallbackQuery F)

abbrev pub callback_message : {F : Type 0} → Option (CallbackQuery F) → Option (Message F)
callback_message none = none
callback_message (some q) = q.message

abbrev pub first_of {ℓ} : {A : Type ℓ} → Option A → Option A → Option A
first_of none b = b
first_of (some a) b = some a

module _ ⦃N : Float64⦄ where
  open N use {F, to_int}

  -- The type switch of chatOfUpdate.
  abbrev pub chat_of_id : Option (Value F) → Option ℤ
  chat_of_id (some (float x)) = some (to_int x)
  chat_of_id (some (integer n)) = some n
  chat_of_id (some (string s)) = none
  chat_of_id (some null) = none
  chat_of_id (some (boolean b)) = none
  chat_of_id (some (compound s)) = none
  chat_of_id none = none

  abbrev chat_of_chat : Option (Chat F) → Option ℤ
  chat_of_chat none = none
  chat_of_chat (some c) = chat_of_id c.id

  abbrev chat_of_message : Option (Message F) → Option ℤ
  chat_of_message none = none
  chat_of_message (some m) = chat_of_chat m.chat

  -- chatOfUpdate
  unfoldable pub chat_of_update : UserAction F → Option ℤ
  chat_of_update u =
      chat_of_message
        (first_of u.message (first_of u.edited_message (callback_message u.callback_query)))

  -- The clock readings of one update: of the guard, of a bucket that the guard makes, of start.
  pub record Readings : Type 0 where
    pub checked : F
    pub made : F
    pub started : F

  abbrev start_unless : SendState → F → F → ChatKey → Typing F → Typing F
  start_unless paused now timeout k t = t
  start_unless ok now timeout k t = start now timeout k t
  start_unless empty now timeout k t = start now timeout k t

  -- The id of a button press, unless it is nil. (No int64 makes itoa64 run out of its buffer.)
  abbrev pub id_text : Option (Value F) → Option Text
  id_text none = none
  id_text (some null) = none
  id_text (some (string s)) = some s
  id_text (some (float x)) = to_str (some (float x))
  id_text (some (integer n)) = to_str (some (integer n))
  id_text (some (boolean b)) = to_str (some (boolean b))
  id_text (some (compound s)) = to_str (some (compound s))

  abbrev callback_id : Option (CallbackQuery F) → Option Text
  callback_id none = none
  callback_id (some q) = id_text q.id

  abbrev pub note_callback : Option Text → ChatKey → Typing F → Typing F
  note_callback none k t = t
  note_callback (some id) k t = record t { callbacks = put id k t.callbacks }

  -- A round of the loop of OnUpdates, in a chat that it found.
  unfoldable pub on_chat :
      Settings F → Readings → ChatKey → UserAction F → Guard F → Typing F → Guard F × Typing F
  on_chat eff c k u g t =
      let t' = note_callback (callback_id u.callback_query) k t in
      let (g', state) = chat_send_state c.checked c.made (some k.1) g in
      (g', start_unless state c.started eff.timeout_s k t')

  abbrev on_update_at :
      Settings F
      → Readings
      → String
      → Option ℤ
      → UserAction F
      → Guard F
      → Typing F
      → Guard F × Typing F
  on_update_at eff c name none u g t = (g, t)
  on_update_at eff c name (some chat) u g t =
      if excluded eff chat then (g, t) else on_chat eff c (name, chat) u g t

  unfoldable pub on_each :
      Settings F → String → List (UserAction F × Readings) → Guard F → Typing F → Guard F × Typing F
  on_each eff name [] g t = (g, t)
  on_each eff name ((u, c) ∷ us) g t =
      let (g', t') = on_update_at eff c name (chat_of_update u) u g t in on_each eff name us g' t'

  -- OnUpdates
  unfoldable pub on_updates :
      Patch F → String → List (UserAction F × Readings) → Guard F → Typing F → Guard F × Typing F
  on_updates p name us g t =
      let eff = effective p t in if eff.enabled then on_each eff name us g t else (g, t)
