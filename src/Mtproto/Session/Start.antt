-- ===== src/Mtproto/Session/Start.antt =====
-- What an admin operation of internal/mtproto/sessions.go comes to while startClient is under way.
use tg_session_gateway.Prelude.{
  ◌≡◌, refl, sym, ◌∙◌, ap, subst, Bool, true, false, some, List, [], ◌∷◌, arith,
}
use tg_session_gateway.Float64.{Float64}
use tg_session_gateway.Mtproto.Session.{
  Session, Turn, started, end_start, finish_start, turn, pause, unregister, live_client,
}

module _ ⦃N : Float64⦄ where
  open N use {F}

  unfoldable pub turns : List (Turn F) → Session F → Session F
  turns [] s = s
  turns (t ∷ ts) s = turns ts (turn t s)

  turn_stopped : (t : Turn F) (s : Session F) → s.stopped ≡ true → turn t s ≡ s
  unfolding turn
  turn_stopped t s h = ground arith

  turns_stopped : (ts : List (Turn F)) (s : Session F) → s.stopped ≡ true → turns ts s ≡ s
  unfolding turns
  turns_stopped [] s h = refl
  turns_stopped (t ∷ ts) s h = ap (turns ts) (turn_stopped t s h) ∙ turns_stopped ts s h

  -- A Pause that comes while a start is under way is lost when the start succeeds: the session is
  -- live, with a client that sends.
  pub end_start-pause :
      (wall after : F) (was_live : Bool) (s : Session F)
      → s.starting ≡ some was_live
      → live_client (finish_start started wall after (pause s).starting (pause s)) ≡ true
  unfolding end_start pause
  end_start-pause wall after was_live s e = ground arith

  -- Unregister while a start is under way releases the lock, but the start goes on: when it
  -- succeeds, the session has a live client without the lock, and no later turn of the supervisor
  -- takes it back.
  pub turns-unregister :
      (wall after : F) (was_live : Bool) (ts : List (Turn F)) (s : Session F)
      → s.starting ≡ some was_live
      → let s' =
          turns ts (finish_start started wall after (unregister s).starting (unregister s)) in
        (live_client s' ≡ true) × (s'.lock_held ≡ false)
  unfolding end_start unregister
  turns-unregister wall after was_live ts s e =
      subst
        (λ w.
          let s' = turns ts (finish_start started wall after w (unregister s)) in
          (live_client s' ≡ true) × (s'.lock_held ≡ false))
        (sym e)
        (subst (λ s'. (live_client s' ≡ true) × (s'.lock_held ≡ false))
          (sym (turns_stopped ts (end_start started wall after was_live (unregister s)) refl))
          (refl, refl))
