-- ===== src/Botapi/Proxy/Verbatim.antt =====
-- CallRawWithChat, forwardMultipart and internalGetUpdates of internal/botapi/proxy.go: the paths
-- that ask once for admission and forward the body as it is, and the one that forwards nothing.
use tg_session_gateway.Prelude.{
  ◌-ℤ◌, map, eq_ℤ, ℤ, pos, Bool, true, false, ◌&&◌, Option, none, some, List, [], ◌∷◌, String,
  string_has_eq, pair_has_eq, find, ltb, ◌==◌, if◌then◌else◌,
}
use tg_session_gateway.Float64.{Float64}
use tg_session_gateway.RateGuard.Method.{Text, text, to_lower, Kind, method_kind, text_has_eq}
use tg_session_gateway.RateGuard.Guard.{try_acquire, wait_time}
use tg_session_gateway.Store.Idempotency.{Claim, claimed, reclaimed, replay}
use tg_session_gateway.Store.Queue.{QueuedUpdate, Wake, wrap64, ack, pull}
use tg_session_gateway.Botapi.Value.{
  Value, null, boolean, float, integer, string, compound, Object, number_of, is_digit, parse_int,
}
use tg_session_gateway.Botapi.Typing.{stop}
use tg_session_gateway.Botapi.Session.{note_synthetic_429}
use tg_session_gateway.Botapi.Proxy.{
  bytes, Upstream, failed, replied, replayed, too_many, updates, Response, Plane, Try, Env,
  is_write, with_guard, with_typing, ask, Codec,
}
use tg_session_gateway.Botapi.Proxy.Forward.{settle_reply, limited_for}
use tg_session_gateway.Botapi.Proxy.Call.{claim_key, key_active, release}

-- What is left of a text that starts with another.
abbrev strip : Text → Text → Option Text
strip [] t = some t
strip (a ∷ p) [] = none
strip (a ∷ p) (b ∷ t) = let rest = strip p t in if a == b then rest else none

abbrev bind_text {ℓ} : {A : Type ℓ} → Option Text → (Text → Option A) → Option A
bind_text none f = none
bind_text (some t) f = f t

-- `\r?\n`
abbrev line_end : Text → Option Text
line_end [] = none
line_end (c ∷ []) = if c == b'\n' then some [] else none
line_end (c ∷ d ∷ t) =
    if c == b'\n' then some (d ∷ t) else if c == b'\r' && d == b'\n' then some t else none

-- `\d+` and a line end behind it; the digits.
unfoldable pub digits_line : Text → Option Text
digits_line [] = none
digits_line (c ∷ t) =
    let more = digits_line t in
    if is_digit c
    then elim more [
      | some ds ↦ some (c ∷ ds)
      | none ↦ elim (line_end t) [ some r ↦ some (c ∷ []) | none ↦ none ]
    ]
    else none

-- `-?\d+` and a line end.
abbrev number_line : Text → Option Text
number_line [] = none
number_line (c ∷ t) =
    if c == b'-'
    then elim (digits_line t) [ some ds ↦ some (b'-' ∷ ds) | none ↦ none ]
    else digits_line (c ∷ t)

-- multipartChatIDRe, at the start of a text.
unfoldable pub chat_id_at : Text → Option Text
chat_id_at t =
    bind_text (strip (text "name=\"chat_id\"") t)
      (λ a. bind_text (line_end a) (λ b. bind_text (line_end b) number_line))

-- Its leftmost match.
unfoldable pub find_chat_id : Text → Option Text
find_chat_id [] = chat_id_at []
find_chat_id (c ∷ t) =
    let later = find_chat_id t in elim (chat_id_at (c ∷ t)) [ some n ↦ some n | none ↦ later ]

-- The chat of a multipart body.
unfoldable pub multipart_chat : Text → Option ℤ
multipart_chat prefix = bind_text (find_chat_id prefix) parse_int

module _ ⦃N : Float64⦄ where
  open N use {F, zero, of_int, to_int}

  -- The type switch on the field offset.
  unfoldable pub offset_of : Option (Value F) → Option ℤ
  offset_of (some (float x)) = some (to_int x)
  offset_of (some (integer n)) = some n
  offset_of (some (string s)) = parse_int s
  offset_of (some null) = none
  offset_of (some (boolean b)) = none
  offset_of (some (compound s)) = none
  offset_of none = none

  -- `s.queue.Pull` acknowledges before it waits. What is pushed meanwhile is the poller's doing.
  abbrev pub acked : Option ℤ → Plane F → Plane F
  acked none w = w
  acked (some offset) w = record w {
    session = record w.session { queue = ack (wrap64 (offset -ℤ pos 1)) w.session.queue };
  }

  abbrev pub delivered : Plane F → Option (List (QueuedUpdate F)) → Option (Response × Plane F)
  delivered w none = none
  delivered w (some items) =
      some (record { status = 200; body = updates (map (λ x. x.update) items) }, w)

  module _ ⦃C : Codec F⦄ where
    open C use {scan}

    abbrev pub or_hundred : ℤ → ℤ
    or_hundred n = if eq_ℤ n (pos 0) then pos 100 else n

    -- internalGetUpdates, over what ends its waits.
    unfoldable pub get_updates : List (Wake F) → Object F → Plane F → Option (Response × Plane F)
    get_updates ws body w =
        let offset = offset_of (find "offset" body) in
        let limit = or_hundred (to_int (number_of scan (find "limit" body))) in
        delivered (acked offset w) (pull offset limit ws w.session.queue)

    -- The answer to a call that is not admitted at once.
    abbrev pub too_many_now : Try F → Text → Option ℤ → Plane F → Response × Plane F
    too_many_now t m chat w =
        let (g, wait) = wait_time t.wait_now t.wait_made m chat w.session.guard in
        (
          record { status = 429; body = too_many (to_int (limited_for wait)) },
          record w { session = note_synthetic_429 (record w.session { guard = g }) },
        )

    abbrev pub settles_key : Upstream → Bool
    settles_key (failed err) = false
    settles_key (replied status body) = ltb status 500

    abbrev pub release_if : (active done : Bool) → Env F → String → Plane F → Plane F
    release_if false done e idem w = w
    release_if true done e idem w = release done e idem w

    -- CallRawWithChat after the claim.
    unfoldable pub raw_send :
        Env F
        → Try F
        → (active : Bool) → String
        → (m method : Text) → String
        → Option ℤ
        → Kind
        → Plane F
        → Response × Plane F
    raw_send e t active idem m method payload chat kind w =
        let w1 = if is_write kind then with_typing (stop w.session.name chat w.typing) w else w in
        let (g, got) = try_acquire t.now t.made m chat w1.session.guard in
        let w2 = with_guard g w1 in
        if got
        then settle_reply e m chat true e.reply
            (release_if active (settles_key e.reply) e idem (ask method (bytes payload) w2))
        else too_many_now t m chat w2

    abbrev pub raw_after_claim :
        Env F
        → Try F
        → (active : Bool) → String
        → (m method : Text) → String
        → Option ℤ
        → Kind
        → Claim × Plane F
        → Response × Plane F
    raw_after_claim e t active idem m method payload chat kind (replay, w) =
        (record { status = 200; body = replayed }, w)
    raw_after_claim e t active idem m method payload chat kind (claimed, w) =
        raw_send e t active idem m method payload chat kind w
    raw_after_claim e t active idem m method payload chat kind (reclaimed, w) =
        raw_send e t active idem m method payload chat kind w

    -- CallRawWithChat
    unfoldable pub call_raw :
        Env F
        → Try F
        → String
        → (method : Text) → (payload : String) → Option ℤ
        → Plane F
        → Response × Plane F
    call_raw e t idem method payload chat w =
        let m = to_lower method in
        let kind = method_kind m in
        let active = key_active idem kind in
        raw_after_claim e t active idem m method payload chat kind (claim_key active e idem w)

    -- forwardMultipart: ForwardStream and forwardRaw. `prefix` is what has been read of the body.
    unfoldable pub forward_multipart :
        Env F → Try F → (method prefix : Text) → (payload : String) → Plane F → Response × Plane F
    forward_multipart e t method prefix payload w =
        let chat = multipart_chat prefix in
        let w1 = with_typing (stop w.session.name chat w.typing) w in
        let (g, got) = try_acquire t.now t.made method chat w1.session.guard in
        let w2 = with_guard g w1 in
        if got
        then settle_reply e method chat true e.reply (ask method (bytes payload) w2)
        else too_many_now t method chat w2
