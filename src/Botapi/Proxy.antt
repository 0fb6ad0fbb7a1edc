-- ===== src/Botapi/Proxy.antt =====
-- internal/botapi/proxy.go: the passthrough to the Bot API. A call takes the plane to a plane; what
-- the clock, the store's engine and Telegram answer is an argument (`Env`). `none` is a call that
-- still waits. The standard library's codecs are an interface.
pub mod Forward
pub mod Call
pub mod Verbatim
pub mod Wait
pub mod Pausing
pub mod Owned
pub mod Whole
pub mod Settling
pub mod FormKeys
pub mod Retry
use tg_session_gateway.Prelude.{
  ℤ, ℕ, Bool, true, false, Option, none, some, List, [], ◌∷◌, ◌++◌, String, string_has_eq,
  pair_has_eq, find, ◌==◌,
}
use tg_session_gateway.Float64.{Float64}
use tg_session_gateway.RateGuard.Method.{Text, Kind, fast, read, write, text_has_eq}
use tg_session_gateway.RateGuard.Guard.{Guard}
use tg_session_gateway.Store.Idempotency.{Keys, ClaimFaults}
use tg_session_gateway.Store.Gateway.{BackoffRow}
use tg_session_gateway.Store.Queue.{Update}
use tg_session_gateway.Botapi.Value.{Value, Object, truthy}
use tg_session_gateway.Botapi.Typing.{Typing}
use tg_session_gateway.Botapi.Session.{Session}

-- What the client is asked for: an encoded body, or a map for it to encode.
pub data Payload (F : Type 0) : Type 0 where
  bytes : String → Payload F
  fields : Object F → Payload F

pub record Request (F : Type 0) : Type 0 where
  pub token : String
  pub method : Text
  pub payload : Payload F

-- What `client.Do` returns.
pub data Upstream : Type 0 where
  failed : String → Upstream
  replied : (status : ℕ) → (body : String) → Upstream

-- A decoded reply, two levels deep.
pub data Node (F : Type 0) : Type 0 where
  leaf : Value F → Node F
  node : Object F → Node F

abbrev pub Decoded : Type 0 → Type 0
Decoded F = List (String × Node F)

-- The bodies of gwResponse: what came from upstream, and the gateway's own answers.
pub data Body : Type 0 where
  raw : String → Body
  result_true conflict replayed paid_refused wait_exceeded not_marshalled : Body
  too_many : (retry_after : ℤ) → Body
  upstream_failed : String → Body
  updates : List Update → Body

pub record Response : Type 0 where
  pub status : ℕ
  pub body : Body

-- What a call of the proxy can change.
pub record Plane (F : Type 0) : Type 0 where
  pub session : Session F
  pub keys : Keys F
  pub backoffs : List (BackoffRow F)
  pub typing : Typing F
  -- what the client was asked for, in order
  pub sent : List (Request F)

-- One round of the wait for admission: the readings of TryAcquire and of WaitTime, and whether the
-- context ends during the wait that may follow.
pub record Try (F : Type 0) : Type 0 where
  pub now : F
  pub made : F
  pub wait_now : F
  pub wait_made : F
  pub cancelled : Bool

pub record Env (F : Type 0) : Type 0 where
  -- to getChat, and to the call
  pub chat_reply : Upstream
  pub reply : Upstream
  pub faults : ClaimFaults
  pub claim_at : F
  pub settle_ok : Bool
  pub settle_at : F
  pub tries : List (Try F)
  pub sent_at : F
  pub report_at : F
  pub report_made : F
  pub save_ok : Bool
  pub save_at : F
  pub noted_at : F

pub data Admission (F : Type 0) : Type 0 where
  admitted : Guard F → Admission F
  -- a synthetic 429
  limited : Body → Guard F → Admission F
  -- the caller went away
  abandoned : Guard F → Admission F

abbrev pub is_429 : ℕ → Bool
is_429 status = status == 429

abbrev pub is_write : Kind → Bool
is_write fast = false
is_write read = false
is_write write = true

abbrev pub with_guard : {F : Type 0} → Guard F → Plane F → Plane F
with_guard g w = record w { session = record w.session { guard = g } }

abbrev pub with_typing : {F : Type 0} → Typing F → Plane F → Plane F
with_typing t w = record w { typing = t }

abbrev pub ask : {F : Type 0} → Text → Payload F → Plane F → Plane F
ask method payload w = record w {
  sent = w.sent ++ record { token = w.session.token; method = method; payload = payload } ∷ [];
}

-- The key of a call in the table.
abbrev pub key_of : {F : Type 0} → String → Plane F → String × String
key_of idem w = (w.session.name, idem)

-- `parsed[name].(map[string]any)` and its field.
abbrev pub sub_field : {F : Type 0} → String → Option (Node F) → Option (Value F)
sub_field name none = none
sub_field name (some (leaf v)) = none
sub_field name (some (node o)) = find name o

abbrev pub is_true : {F : Type 0} → Option (Node F) → Bool
is_true none = false
is_true (some (leaf v)) = truthy (some v)
is_true (some (node o)) = false

-- encoding/json and fmt.Sscanf with "%g".
pub record Codec (F : Type 0) : Type 0 where
  pub marshal : Object F → Option String
  pub unmarshal : String → Option (Decoded F)
  pub scan : Text → Option F
