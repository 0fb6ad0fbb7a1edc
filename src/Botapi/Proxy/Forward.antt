-- ===== src/Botapi/Proxy/Forward.antt =====
-- Admission and forwarding of internal/botapi/proxy.go (admitAndForward, and what a reply from
-- upstream teaches), and RecordBackoff of internal/botapi/session.go.
use tg_session_gateway.Prelude.{
  ℤ, pos, Bool, true, false, not, ◌&&◌, Option, none, some, List, [], ◌∷◌, String, string_has_eq,
  pair_has_eq, ◌=?◌, find, if◌then◌else◌,
}
use tg_session_gateway.Float64.{Float64, ltf, fmin, fmax}
use tg_session_gateway.RateGuard.Method.{Text, Kind, text_has_eq}
use tg_session_gateway.RateGuard.Guard.{Guard, try_acquire, wait_time, report_429}
use tg_session_gateway.Store.Gateway.{save_backoff}
use tg_session_gateway.Botapi.Value.{Object, number_of}
use tg_session_gateway.Botapi.Session.{
  Session, effective_on_limit, note_send, note_real_429, note_synthetic_429,
}
use tg_session_gateway.Botapi.Proxy.{
  bytes, Upstream, failed, replied, Decoded, raw, wait_exceeded, not_marshalled, too_many,
  upstream_failed, Response, Plane, Try, Env, Admission, admitted, limited, abandoned, is_429,
  is_write, with_guard, ask, sub_field, Codec,
}

module _ ⦃N : Float64⦄ where
  open N use {F, zero, add, of_int, to_int}

  module _ ⦃C : Codec F⦄ where
    open C use {marshal, unmarshal, scan}

    -- The wait that a 429 asks for, 5 seconds unless it says so.
    abbrev pub positive_or : F → F → F
    positive_or default v = if ltf zero v then v else default

    abbrev pub retry_of : Option (Decoded F) → F
    retry_of none = of_int (pos 5)
    retry_of (some o) =
        positive_or (of_int (pos 5))
          (number_of scan (sub_field "retry_after" (find "parameters" o)))

    unfoldable pub retry_after : String → F
    retry_after body = retry_of (unmarshal body)

    -- RecordBackoff
    unfoldable pub record_backoff : Env F → Option ℤ → F → Plane F → Plane F
    record_backoff e chat retry w = record w {
      backoffs = save_backoff e.save_ok w.session.name chat (add e.save_at retry) w.backoffs;
    }

    -- What the gateway learns from a real 429.
    unfoldable pub learn_429 : Env F → Text → Option ℤ → F → Plane F → Plane F
    learn_429 e method chat retry w =
        let s = note_real_429 w.session in
        let s' = record s {
          guard = report_429 e.report_at e.report_made chat retry s.guard;
          last_429 =
              some (record {
                method = method;
                chat_id = chat;
                retry_after = retry;
                noted = e.noted_at;
              });
        } in
        record_backoff e chat retry (record w { session = s' })

    abbrev pub note_send_if : Bool → F → Plane F → Plane F
    note_send_if false now w = w
    note_send_if true now w = record w { session = note_send now w.session }

    -- The end of the three forwarding paths: an error, or the reply with what it teaches. `named`
    -- is the method as last429 spells it, `counts` whether the meter counts the call.
    unfoldable pub settle_reply :
        Env F → Text → Option ℤ → (counts : Bool) → Upstream → Plane F → Response × Plane F
    settle_reply e named chat counts (failed err) w =
        (record { status = 502; body = upstream_failed err }, w)
    settle_reply e named chat counts (replied status body) w =
        let w' = note_send_if counts e.sent_at w in
        (
          record { status = status; body = raw body },
          if is_429 status then learn_429 e named chat (retry_after body) w' else w',
        )

    abbrev pub limited_for : F → F
    limited_for wait = fmax (of_int (pos 1)) (fmin wait (of_int (pos 60)))

    abbrev pub after_refusal :
        (queues : Bool)
        → (timeout waited : F) → Try F
        → Guard F × F
        → Option (Admission F)
        → Option (Admission F)
    after_refusal false timeout waited t (g, wait) rest =
        some (limited (too_many (to_int (limited_for wait))) g)
    after_refusal true timeout waited t (g, wait) rest =
        if ltf timeout (add waited (fmin wait (of_int (pos 2))))
        then some (limited wait_exceeded g)
        else if t.cancelled
        then some (abandoned g)
        else rest

    -- The wait for admission; `queues` if a refused call waits.
    unfoldable pub admit :
        (queues : Bool)
        → Text
        → Option ℤ
        → (timeout waited : F) → List (Try F)
        → Guard F
        → Option (Admission F)
    admit queues m chat timeout waited [] g = none
    admit queues m chat timeout waited (t ∷ ts) g =
        let (g', got) = try_acquire t.now t.made m chat g in
        let later = wait_time t.wait_now t.wait_made m chat g' in
        let rest =
          admit queues m chat timeout (add waited (fmin later.1 (of_int (pos 2)))) ts later.0 in
        if got then some (admitted g') else after_refusal queues timeout waited t later rest

    unfoldable pub waits_for : Kind → Session F → Bool
    waits_for kind s = not (effective_on_limit s =? "reject") && is_write kind

    abbrev pub forward_marshalled :
        Env F → Text → Option ℤ → Kind → Option String → Plane F → Response × Plane F
    forward_marshalled e method chat kind none w =
        (record { status = 500; body = not_marshalled }, w)
    forward_marshalled e method chat kind (some json) w =
        settle_reply e method chat (is_write kind) e.reply (ask method (bytes json) w)

    unfoldable pub forward :
        Env F
        → Text
        → Object F
        → Option ℤ
        → Kind
        → Option (Admission F)
        → Plane F
        → Option (Response × Plane F)
    forward e method body chat kind none w = none
    forward e method body chat kind (some (limited b g)) w =
        let w' = with_guard g w in
        some
          (record { status = 429; body = b }, record w' { session = note_synthetic_429 w'.session })
    forward e method body chat kind (some (abandoned g)) w =
        some (record { status = 429; body = wait_exceeded }, with_guard g w)
    forward e method body chat kind (some (admitted g)) w =
        some (forward_marshalled e method chat kind (marshal body) (with_guard g w))

    -- admitAndForward
    unfoldable pub admit_and_forward :
        Env F
        → (timeout : F) → (m method : Text) → Object F
        → Option ℤ
        → Kind
        → Plane F
        → Option (Response × Plane F)
    admit_and_forward e timeout m method body chat kind w =
        forward e method body chat kind
          (admit (waits_for kind w.session) m chat timeout zero e.tries w.session.guard) w
