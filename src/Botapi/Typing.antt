-- ===== src/Botapi/Typing.antt =====
-- internal/botapi/typing.go: the automatic typing indicator. The loops are goroutines that share
-- their record with the manager: `loops` holds the records by address, `active` the addresses by
-- alias and chat (the map of maps, flattened: an inner map with no entry is the same as none).
pub mod Loop
pub mod Updates
pub mod Runs
pub mod Quiet
use tg_session_gateway.Prelude.{
  ℤ, ℕ, suc, Bool, true, false, not, ◌&&◌, Option, none, some, List, [], ◌∷◌, String, Eq,
  string_has_eq, int_has_eq, nat_has_eq, ◌=?◌, eq_ℤ, eq_ℤ_iff, find, put, remove, keep, length,
  if◌then◌else◌, ◌≡◌, ◌↔◌, arith,
}
use tg_session_gateway.Float64.{Float64}
use tg_session_gateway.RateGuard.Method.{Text, text_has_eq}

-- RuntimeTypingSettings, and what the three layers resolve to.
pub record Settings (F : Type 0) : Type 0 where
  pub enabled : Bool
  pub private_only : Bool
  pub interval_s : F
  pub timeout_s : F
  pub timeout_text : String

-- TypingPatch, and the overrides of one bot.
pub record Patch (F : Type 0) : Type 0 where
  pub enabled : Option Bool
  pub private_only : Option Bool
  pub interval_s : Option F
  pub timeout_s : Option F
  pub timeout_text : Option String

abbrev pub or_else {ℓ} : {A : Type ℓ} → Option A → A → A
or_else none a = a
or_else (some b) a = b

-- Apply
unfoldable pub apply : {F : Type 0} → Patch F → Settings F → Settings F
apply p r = record {
  enabled = or_else p.enabled r.enabled;
  private_only = or_else p.private_only r.private_only;
  interval_s = or_else p.interval_s r.interval_s;
  timeout_s = or_else p.timeout_s r.timeout_s;
  timeout_text = or_else p.timeout_text r.timeout_text;
}

abbrev pub named {ℓ} : {A : Type ℓ} → String → Option A → List String → List String
named name none names = names
named name (some a) names = name ∷ names

-- The list "overridden" of StatusFor.
unfoldable pub overridden : {F : Type 0} → Patch F → List String
overridden p = named "enabled" p.enabled (
    named "private_only" p.private_only (
      named "interval_s" p.interval_s
        (named "timeout_s" p.timeout_s (named "timeout_text" p.timeout_text []))))

-- `+Inf` is the deadline of a loop that has none.
pub data Deadline (F : Type 0) : Type 0 where
  at : F → Deadline F
  never : Deadline F

-- activeLoop; `cancelled` is the state of its context.
pub record ActiveLoop (F : Type 0) : Type 0 where
  pub deadline : Deadline F
  pub notify : Bool
  pub cancelled : Bool

-- An alias and a chat.
abbrev pub ChatKey : Type 0
ChatKey = String × ℤ

abbrev pub chat_key_eq : ChatKey → ChatKey → Bool
chat_key_eq (s, a) (t, b) = s =? t && eq_ℤ a b

pub chat_key_eq_iff : (a b : ChatKey) → (chat_key_eq a b ≡ true) ↔ (a ≡ b)
chat_key_eq_iff (s, a) (t, b) = ground (arith, string_has_eq.beq_iff s t, eq_ℤ_iff a b)

instance abbrev pub chat_key_has_eq : Eq ChatKey
chat_key_has_eq = record { beq = chat_key_eq; beq_iff = chat_key_eq_iff }

pub record Typing (F : Type 0) : Type 0 where
  pub settings : Settings F
  pub loops : List (ℕ × ActiveLoop F)
  pub next : ℕ
  pub active : List (ChatKey × ℕ)
  pub callbacks : List (Text × ChatKey)
  pub closed : Bool

-- The loops of one bot.
abbrev pub of_bot : String → ChatKey × ℕ → Bool
of_bot name e = e.0.0 =? name

abbrev pub mark : {F : Type 0} → ActiveLoop F → ActiveLoop F
mark r = record r { cancelled = true }

abbrev pub edit_found :
    {F : Type 0}
    → (ActiveLoop F → ActiveLoop F)
    → ℕ
    → Option (ActiveLoop F)
    → List (ℕ × ActiveLoop F)
    → List (ℕ × ActiveLoop F)
edit_found f p none loops = loops
edit_found f p (some r) loops = put p (f r) loops

-- A write through the address of a record.
unfoldable pub edit :
    {F : Type 0}
    → (ActiveLoop F → ActiveLoop F)
    → ℕ
    → List (ℕ × ActiveLoop F)
    → List (ℕ × ActiveLoop F)
edit f p loops = edit_found f p (find p loops) loops

-- `rec.cancel()` on the records of these entries.
unfoldable pub cancel_each :
    {F : Type 0} → List (ChatKey × ℕ) → List (ℕ × ActiveLoop F) → List (ℕ × ActiveLoop F)
cancel_each [] loops = loops
cancel_each (e ∷ es) loops = cancel_each es (edit mark e.1 loops)

-- purgeCallbacksLocked
unfoldable pub purge_callbacks : String → List (Text × ChatKey) → List (Text × ChatKey)
purge_callbacks name = keep (λ e. not (e.1.0 =? name))

unfoldable pub stop_at : {F : Type 0} → Option ℕ → Typing F → Typing F
stop_at none t = t
stop_at (some p) t = record t { loops = edit mark p t.loops }

-- Stop
unfoldable pub stop : {F : Type 0} → String → Option ℤ → Typing F → Typing F
unfolding stop_at
stop name none t = t
stop name (some chat) t = stop_at (find (name, chat) t.active) t

-- StopAll
unfoldable pub stop_all : {F : Type 0} → String → Typing F → Typing F
stop_all name t = record t {
  loops = cancel_each (keep (of_bot name) t.active) t.loops;
  active = keep (λ e. not (of_bot name e)) t.active;
  callbacks = purge_callbacks name t.callbacks;
}

-- StopByCallbackID, of a target that the map had.
unfoldable pub stop_target : {F : Type 0} → String → Option ChatKey → Typing F → Typing F
stop_target name none t = t
stop_target name (some (owner, chat)) t = if owner =? name then stop name (some chat) t else t

-- StopByCallbackID, on the text of the id if there is an id.
unfoldable pub stop_by_callback_id : {F : Type 0} → String → Option Text → Typing F → Typing F
stop_by_callback_id name none t = t
stop_by_callback_id name (some id) t =
    stop_target name (find id t.callbacks) (record t { callbacks = remove id t.callbacks })

abbrev pub hushed : {F : Type 0} → ActiveLoop F → ActiveLoop F
hushed r = record r { notify = false; deadline = never }

-- `if rec.notify { rec.deadline = d }`
abbrev pub rearm : {F : Type 0} → Deadline F → ActiveLoop F → ActiveLoop F
rearm d r = if r.notify then record r { deadline = d } else r

-- CancelTimeout, on the record it finds.
unfoldable pub cancel_timeout_at : {F : Type 0} → Option ℕ → Typing F → Typing F
cancel_timeout_at none t = t
cancel_timeout_at (some p) t = record t { loops = edit hushed p t.loops }

unfoldable pub cancel_timeout : {F : Type 0} → String → Option ℤ → Typing F → Typing F
cancel_timeout name none t = t
cancel_timeout name (some chat) t = cancel_timeout_at (find (name, chat) t.active) t

-- cleanup
unfoldable pub cleanup : {F : Type 0} → String → ℤ → Typing F → Typing F
cleanup name chat t = record t {
  active = remove (name, chat) t.active;
  callbacks = keep (λ e. not (e.1 =? (name, chat))) t.callbacks;
}

-- Close
unfoldable pub close : {F : Type 0} → Typing F → Typing F
close t = record t { closed = true; loops = cancel_each t.active t.loops }

-- ActiveCount
unfoldable pub active_count : {F : Type 0} → String → Typing F → ℕ
active_count name t = length (keep (of_bot name) t.active)

module _ ⦃N : Float64⦄ where
  open N use {F, add}

  -- effective: the overrides of the bot over the settings of the moment.
  abbrev pub effective : Patch F → Typing F → Settings F
  effective p t = apply p t.settings

  -- start, on the record of the chat if it has one.
  unfoldable pub start_at : F → F → ChatKey → Option ℕ → Typing F → Typing F
  start_at now timeout k none t = record t {
    loops =
        put t.next (record { deadline = at (add now timeout); notify = true; cancelled = false })
          t.loops;
    next = suc t.next;
    active = put k t.next t.active;
  }
  start_at now timeout k (some p) t = record t {
    loops = edit (rearm (at (add now timeout))) p t.loops;
  }

  unfoldable pub start : F → F → ChatKey → Typing F → Typing F
  start now timeout k t = if t.closed then t else start_at now timeout k (find k t.active) t
