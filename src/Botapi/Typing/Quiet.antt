-- ===== src/Botapi/Typing/Quiet.antt =====
-- What a stop signal in internal/botapi/typing.go lasts for: the notice of the timeout that the
-- consumer cancelled, and the loop that a reply ended.
use tg_session_gateway.Prelude.{
  ℤ, ℕ, ◌<◌, ◌≡◌, refl, ap, Bool, true, false, not, ◌&&◌, ◌||◌, Option, none, some, is_some, List,
  String, find, nat_has_eq, find-put_self, if◌then◌else◌, arith,
}
use tg_session_gateway.Float64.{Float64}
use tg_session_gateway.RateGuard.Guard.{SendState, paused, empty, ok}
use tg_session_gateway.Botapi.Typing.{
  Settings, Deadline, at, never, ActiveLoop, Typing, chat_key_has_eq, mark, hushed, edit_found,
  edit, stop_at, stop, cancel_timeout_at, cancel_timeout,
}
use tg_session_gateway.Botapi.Typing.Loop.{
  Round, beat, skip, leave, loop_round, is_over, excluded, goes_on,
}
use tg_session_gateway.Botapi.Typing.Runs.{Op, run, holds, Kept, Stays, run-Stays}

module _ ⦃N : Float64⦄ where
  open N use {F}

  is_never : Deadline F → Bool
  is_never (at d) = false
  is_never never = true

  abbrev is_hushed : ActiveLoop F → Bool
  is_hushed r = not r.notify && is_never r.deadline

  edit_found-here :
      (P : ActiveLoop F → Bool) (f : ActiveLoop F → ActiveLoop F) (p : ℕ)
      (o : Option (ActiveLoop F)) (loops : List (ℕ × ActiveLoop F))
      → ((r : ActiveLoop F) → P (f r) ≡ true)
      → is_some o ≡ true
      → holds P (find p (edit_found f p o loops)) ≡ true
  edit_found-here P f p none loops k h = absurd (ground arith)
  edit_found-here P f p (some r) loops k h = rw (find-put_self p (f r) loops) (k r)

  edit-here :
      (P : ActiveLoop F → Bool) (f : ActiveLoop F → ActiveLoop F) (p : ℕ)
      (loops : List (ℕ × ActiveLoop F))
      → ((r : ActiveLoop F) → P (f r) ≡ true)
      → is_some (find p loops) ≡ true
      → holds P (find p (edit f p loops)) ≡ true
  unfolding edit
  edit-here P f p loops k h = edit_found-here P f p (find p loops) loops k h

  found_of_holds :
      (P : ActiveLoop F → Bool) (o : Option (ActiveLoop F))
      → holds P o ≡ true
      → (r : ActiveLoop F) × (o ≡ some r) × (P r ≡ true)
  found_of_holds P none h = absurd (ground arith)
  found_of_holds P (some r) h = (r, refl, h)

  Kept-hushed : Kept is_hushed
  unfolding is_never
  Kept-hushed = record {
    at_mark = λ r h. h;
    at_hushed = λ r h. refl;
    at_rearm = λ d r h. ground (arith, h);
  }

  Kept-cancelled : Kept (λ r. r.cancelled)
  Kept-cancelled = record {
    at_mark = λ r h. refl;
    at_hushed = λ r h. h;
    at_rearm = λ d r h. ground (arith, h);
  }

  -- The round of a loop that has no deadline.
  abbrev pub endless_round : Settings F → SendState → ℤ → Round
  endless_round eff paused chat = leave
  endless_round eff ok chat = if not eff.enabled || excluded eff chat then leave else beat
  endless_round eff empty chat = if not eff.enabled || excluded eff chat then leave else skip

  never_over : (now : F) (d : Deadline F) → is_never d ≡ true → is_over now d ≡ false
  unfolding is_never
  never_over now (at d) h = absurd (ground arith)
  never_over now never h = refl

  loop_round-hushed :
      (eff : Settings F) (state : SendState) (now : F) (chat : ℤ) (r : ActiveLoop F)
      → is_hushed r ≡ true
      → loop_round eff state now chat r ≡ endless_round eff state chat
  unfolding loop_round
  loop_round-hushed eff paused now chat r h = ground arith
  loop_round-hushed eff ok now chat r h = ground (arith, never_over now r.deadline, h)
  loop_round-hushed eff empty now chat r h = ground (arith, never_over now r.deadline, h)

  -- After CancelTimeout in a chat that has a loop, whatever comes next, the loop's record is there
  -- and its rounds go as if there were no timeout: no user action arms it again, and the notice is
  -- never sent.
  pub run-cancel_timeout :
      (os : List Op) (name : String) (chat : ℤ) (p : ℕ) (t : Typing F)
      → find (name, chat) t.active ≡ some p
      → is_some (find p t.loops) ≡ true
      → p < t.next
      → (r : ActiveLoop F) × (find p (run os (cancel_timeout name (some chat) t)).loops ≡ some r)
        × ((eff : Settings F) (state : SendState) (now : F) (c : ℤ)
            → loop_round eff state now c r ≡ endless_round eff state c)
  unfolding cancel_timeout cancel_timeout_at is_never
  run-cancel_timeout os name chat p t a l h =
      let u = record t { loops = edit hushed p t.loops } in
      let s : Stays is_hushed p u = record {
        taken = h;
        here = edit-here is_hushed hushed p t.loops (λ r. refl) l;
      } in
      let (r, e, q) =
        found_of_holds is_hushed (find p (run os u).loops)
          (run-Stays is_hushed Kept-hushed p os u s).here in
      rw a (r, e, λ eff state now c. loop_round-hushed eff state now c r q)

  -- A loop that Stop ended stays ended, whatever comes next: it returns at its next wait, and no
  -- user action revives it.
  pub run-stop :
      (os : List Op) (name : String) (chat : ℤ) (p : ℕ) (t : Typing F)
      → find (name, chat) t.active ≡ some p
      → is_some (find p t.loops) ≡ true
      → p < t.next
      → (r : ActiveLoop F) × (find p (run os (stop name (some chat) t)).loops ≡ some r)
        × (goes_on r ≡ false)
  unfolding stop stop_at goes_on
  run-stop os name chat p t a l h =
      let u = record t { loops = edit mark p t.loops } in
      let s : Stays (λ r. r.cancelled) p u = record {
        taken = h;
        here = edit-here (λ r. r.cancelled) mark p t.loops (λ r. refl) l;
      } in
      let (r, e, q) =
        found_of_holds (λ r. r.cancelled) (find p (run os u).loops)
          (run-Stays (λ r. r.cancelled) Kept-cancelled p os u s).here in
      rw a (r, e, ap not q)
