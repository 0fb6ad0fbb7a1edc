-- ===== src/Botapi/Proxy/Owned.antt =====
-- The methods that internal/botapi/proxy.go answers itself.
use tg_session_gateway.Prelude.{
  ℤ, ◌≡◌, refl, ◌∙◌, true, ◌⊎◌, inl, inr, Option, none, some, List, [], ◌∷◌, ◌++◌, String,
  string_has_eq, find, Every, Every-map, if_both,
}
use tg_session_gateway.Float64.{Float64, eqf}
use tg_session_gateway.RateGuard.Method.{
  Text, text, text_eq, has_prefix, to_lower, contains, text_has_eq,
}
use tg_session_gateway.Store.Queue.{QueuedUpdate, Wake}
use tg_session_gateway.Botapi.Value.{Value, null, boolean, float, integer, string, compound, Object}
use tg_session_gateway.Botapi.Session.{gateway_owned}
use tg_session_gateway.Botapi.Proxy.{fields, Request, Plane, Env, Codec}
use tg_session_gateway.Botapi.Proxy.Call.{resolve_name, id_in, resolve_username, call}
use tg_session_gateway.Botapi.Proxy.Verbatim.{offset_of, acked, delivered, get_updates}

module _ ⦃N : Float64⦄ where
  open N use {F, zero}

  -- The lookup of a user name.
  abbrev pub lookup : Text → Plane F → Request F
  lookup name w = record {
    token = w.session.token;
    method = text "getChat";
    payload = fields (("chat_id", string name) ∷ []);
  }

  -- Nothing is asked of the client but at most one lookup.
  abbrev pub OnlyLookup : Plane F → Plane F → Type 0
  OnlyLookup w v = (v.sent ≡ w.sent) ⊎ ((name : Text) × (v.sent ≡ w.sent ++ lookup name w ∷ []))

  abbrev pub Looked {ℓ} : {A : Type ℓ} → Plane F → A × Plane F → Type 0
  Looked w r = OnlyLookup w r.1

  OnlyLookup-then : (w v u : Plane F) → OnlyLookup w v → u.sent ≡ v.sent → OnlyLookup w u
  OnlyLookup-then w v u (inl e) h = inl (h ∙ e)
  OnlyLookup-then w v u (inr (name, e)) h = inr (name, h ∙ e)

  module _ ⦃C : Codec F⦄ where
    resolve_name-Looked :
        (e : Env F) (name : Text) (chat : Option ℤ) (body : Object F) (w : Plane F)
        → Looked w (resolve_name e name chat body w)
    resolve_name-Looked e name (some chat) body w = inl refl
    resolve_name-Looked e name none body w =
        if_both (Looked {A = Object F} w) (eqf (id_in e.chat_reply) zero) _ _ (inr (name, refl))
          (inr (name, refl))

    pub resolve_username-Looked :
        (e : Env F) (v : Option (Value F)) (body : Object F) (w : Plane F)
        → Looked w (resolve_username e v body w)
    unfolding resolve_username
    resolve_username-Looked e (some (string name)) body w =
        if_both (Looked {A = Object F} w) (has_prefix (text "@") name) _ _
          (resolve_name-Looked e name (find name w.session.chat_names) body w) (inl refl)
    resolve_username-Looked e (some (float x)) body w = inl refl
    resolve_username-Looked e (some (integer n)) body w = inl refl
    resolve_username-Looked e (some (boolean b)) body w = inl refl
    resolve_username-Looked e (some null) body w = inl refl
    resolve_username-Looked e (some (compound s)) body w = inl refl
    resolve_username-Looked e none body w = inl refl

    acked_sent : (o : Option ℤ) (w : Plane F) → (acked o w).sent ≡ w.sent
    acked_sent none w = refl
    acked_sent (some o) w = refl

    delivered_sent :
        (w : Plane F) (o : Option (List (QueuedUpdate F)))
        → Every (λ r. r.1.sent ≡ w.sent) (delivered w o)
    delivered_sent w none = tt
    delivered_sent w (some xs) = refl

    get_updates_sent :
        (ws : List (Wake F)) (body : Object F) (w : Plane F)
        → Every (λ r. r.1.sent ≡ w.sent) (get_updates ws body w)
    unfolding get_updates
    get_updates_sent ws body w =
        let o = offset_of (find "offset" body) in
        Every-map {P = λ r. r.1.sent ≡ (acked o w).sent} {Q = λ r. r.1.sent ≡ w.sent}
          (λ r h. h ∙ acked_sent o w) _ (delivered_sent (acked o w) _)

    -- A JSON call of one of the gateway's own methods, in whatever case it is spelled, is never
    -- forwarded: getUpdates is served from the queue and the others are answered, and the client is
    -- asked for nothing but, at most, the number of a chat that the body names as a user.
    pub call-OnlyLookup :
        (ws : List (Wake F)) (e : Env F) (timeout : F) (idem : String) (method : Text)
        (body : Object F) (w : Plane F)
        → contains gateway_owned (to_lower method) ≡ true
        → Every (Looked w) (call (get_updates ws) e timeout idem method body w)
    unfolding call
    call-OnlyLookup ws e timeout idem method body w h =
        let r = resolve_username e (find "chat_id" body) body w in
        let l = resolve_username-Looked e (find "chat_id" body) body w in
        rw h (
          if_both (Every (Looked w)) (text_eq (to_lower method) (text "getupdates")) _ _
            (Every-map {P = λ x. x.1.sent ≡ r.1.sent} {Q = Looked w}
              (λ x s. OnlyLookup-then w r.1 x.1 l s) _ (get_updates_sent ws r.0 r.1))
            l)
