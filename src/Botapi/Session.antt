-- ===== src/Botapi/Session.antt =====
-- BotSession of internal/botapi/session.go: the state of one bot token, and its small operations.
use tg_session_gateway.Prelude.{
  ℤ, ℕ, zero, suc, ◌+◌, ◌-◌, Bool, Option, none, some, List, [], ◌∷◌, ◌++◌, String, if◌then◌else◌,
  ltb, length, keep,
}
use tg_session_gateway.Float64.{Float64}
use tg_session_gateway.RateGuard.Method.{Text, text}
use tg_session_gateway.RateGuard.Guard.{Guard}
use tg_session_gateway.Store.Queue.{Queue}
use tg_session_gateway.Botapi.Typing.{Patch}

-- State
pub data State : Type 0 where
  connecting live paused draining error : State

-- last429
pub record Last429 (F : Type 0) : Type 0 where
  pub method : Text
  pub chat_id : Option ℤ
  pub retry_after : F
  pub noted : F

-- `poll_cancelled` is the context of the poller: none before there is one (pollCancel is nil);
-- `push_cancelled` is that of the health check of the push target.
pub record Session (F : Type 0) : Type 0 where
  pub name : String
  pub token : String
  pub state : State
  pub queue : Queue F
  pub guard : Guard F
  pub connected_since : F
  pub last_error : String
  pub real_429 : ℕ
  pub synth_429 : ℕ
  pub last_429 : Option (Last429 F)
  pub push_url : String
  pub poll_cancelled : Option Bool
  pub push_cancelled : Option Bool
  pub chat_names : List (Text × ℤ)
  pub on_limit : Option String
  pub paid_broadcasts : Bool
  pub typing : Patch F
  pub send_times : List F

-- gatewayOwned
abbrev pub gateway_owned : List Text
gateway_owned =
    text "getupdates" ∷ text "setwebhook" ∷ text "deletewebhook" ∷ text "logout" ∷ text "close" ∷ []

abbrev on_limit_or : Option String → String
on_limit_or none = "queue"
on_limit_or (some policy) = policy

-- EffectiveOnLimit
unfoldable pub effective_on_limit : {F : Type 0} → Session F → String
effective_on_limit s = on_limit_or s.on_limit

-- `ts[len(ts)-n:]`, of a longer list.
unfoldable pub skip {ℓ} : {A : Type ℓ} → ℕ → List A → List A
skip zero xs = xs
skip (suc n) [] = []
skip (suc n) (x ∷ xs) = skip n xs

abbrev pub meter_size : ℕ
meter_size = 200

unfoldable pub last_sends : {F : Type 0} → List F → List F
last_sends ts = if ltb meter_size (length ts) then skip (length ts - meter_size) ts else ts

-- noteSend
unfoldable pub note_send : {F : Type 0} → F → Session F → Session F
note_send now s = record s { send_times = last_sends (s.send_times ++ now ∷ []) }

-- noteReal429
unfoldable pub note_real_429 : {F : Type 0} → Session F → Session F
note_real_429 s = record s { real_429 = s.real_429 + 1 }

-- noteSynthetic429
unfoldable pub note_synthetic_429 : {F : Type 0} → Session F → Session F
note_synthetic_429 s = record s { synth_429 = s.synth_429 + 1 }

module _ ⦃N : Float64⦄ where
  open N use {F, leb, sub, of_int}

  -- sendsPerSLocked: the meter without what is older than a second, and its length.
  unfoldable pub sends_per_s : F → Session F → Session F × ℕ
  sends_per_s now s =
      let kept = keep (λ t. leb (sub now t) (of_int (ℤ.pos 1))) s.send_times in
      (record s { send_times = kept }, length kept)
