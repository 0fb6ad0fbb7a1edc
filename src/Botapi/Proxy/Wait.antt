-- ===== src/Botapi/Proxy/Wait.antt =====
-- The wait for admission in admitAndForward of internal/botapi/proxy.go.
use tg_session_gateway.Prelude.{
  ℤ, pos, ℕ, zero, suc, ◌≡◌, refl, Bool, true, false, inl, inr, Bool-cases, Option, none, some,
  is_some, List, [], ◌∷◌, length, if_both, arith,
}
use tg_session_gateway.Float64.{Float64, ltf, fmin}
use tg_session_gateway.RateGuard.Method.{Text, write, method_kind}
use tg_session_gateway.RateGuard.Guard.{Guard, try_acquire, wait_time}
use tg_session_gateway.RateGuard.Guard.Blocks.{IsPaused}
use tg_session_gateway.RateGuard.Guard.Blocks.Asleep.{
  wait_time-IsPaused, try_acquire-IsPaused, try_acquire_paused,
}
use tg_session_gateway.Botapi.Proxy.{Try, Admission, admitted, limited, abandoned, Codec}
use tg_session_gateway.Botapi.Proxy.Forward.{admit, after_refusal}

module _ ⦃N : Float64⦄ where
  open N use {F, leb as leb_F, add, of_int, to_int, leb_refl, leb_trans, add_le}

  -- What WaitTime answers in a round, and the wait that the loop makes of it.
  abbrev pub asked_wait : Text → Option ℤ → Try F → Guard F → Guard F × F
  asked_wait m chat t g =
      wait_time t.wait_now t.wait_made m chat (try_acquire t.now t.made m chat g).0

  abbrev pub slept : Text → Option ℤ → Try F → Guard F → F
  slept m chat t g = fmin (asked_wait m chat t g).1 (of_int (pos 2))

  -- Each round would wait for `step` at least.
  abbrev pub AllWait : F → Text → Option ℤ → List (Try F) → Guard F → Type 0
  AllWait step m chat [] g = Unit {0}
  AllWait step m chat (t ∷ ts) g =
      (leb_F step (slept m chat t g) ≡ true) × AllWait step m chat ts (asked_wait m chat t g).0

  -- `waited += step`, so many times.
  unfoldable pub climb : F → ℕ → F → F
  climb step zero waited = waited
  climb step (suc n) waited = climb step n (add waited step)

  climb_mono :
      (step : F) (n : ℕ) (a b : F)
      → leb_F a b ≡ true
      → leb_F (climb step n a) (climb step n b) ≡ true
  unfolding climb
  climb_mono step zero a b h = h
  climb_mono step (suc n) a b h =
      climb_mono step n (add a step) (add b step) (add_le a b step step h (leb_refl step))

  abbrev Decided : Option (Admission F) → Type 0
  Decided o = is_some o ≡ true

  -- The call is sent.
  abbrev pub sends : Option (Admission F) → Bool
  sends (some (admitted g)) = true
  sends (some (limited b g)) = false
  sends (some (abandoned g)) = false
  sends none = false

  abbrev pub AllEarly : F → List (Try F) → Type 0
  AllEarly until [] = Unit {0}
  AllEarly until (t ∷ ts) =
      (ltf t.now until ≡ true) × (ltf t.wait_now until ≡ true) × AllEarly until ts

  module _ ⦃C : Codec F⦄ where
    -- A call that does not wait is decided by its first try.
    pub admit_at_once :
        (m : Text) (chat : Option ℤ) (timeout waited : F) (t : Try F) (ts : List (Try F))
        (g : Guard F)
        → is_some (admit false m chat timeout waited (t ∷ ts) g) ≡ true
    unfolding admit
    admit_at_once m chat timeout waited t ts g =
        if_both Decided (try_acquire t.now t.made m chat g).1 _ _ refl refl

    decided :
        (timeout waited : F) (t : Try F) (later : Guard F × F) (rest : Option (Admission F))
        → (leb_F (add waited (fmin later.1 (of_int (pos 2)))) timeout ≡ true → is_some rest ≡ true)
        → is_some (after_refusal true timeout waited t later rest) ≡ true
    decided timeout waited t (g, wait) rest k =
        elim (Bool-cases (ltf timeout (add waited (fmin wait (of_int (pos 2)))))) [
          | inl e ↦ rw e refl
          | inr e ↦ rw e (if_both Decided t.cancelled _ _ refl (k (ground (arith, e))))
        ]

    -- The loop ends: if every round would wait for `step` at least, and that many steps pass the
    -- timeout, then the call is admitted, refused or abandoned by the last of these rounds.
    pub admit_ends :
        (step : F) (m : Text) (chat : Option ℤ) (timeout waited : F) (ts : List (Try F))
        (g : Guard F)
        → leb_F waited timeout ≡ true
        → AllWait step m chat ts g
        → ltf timeout (climb step (length ts) waited) ≡ true
        → is_some (admit true m chat timeout waited ts g) ≡ true
    unfolding admit climb
    admit_ends step m chat timeout waited [] g le l h = absurd (ground (arith, le, h))
    admit_ends step m chat timeout waited (t ∷ ts) g le l h =
        if_both Decided (try_acquire t.now t.made m chat g).1 _ _ refl (
          decided timeout waited t (asked_wait m chat t g) _ (λ le'.
            admit_ends step m chat timeout (add waited (slept m chat t g)) ts
              (asked_wait m chat t g).0 le' l.1
              (ground (
                arith,
                h,
                climb_mono step (length ts) (add waited step) (add waited (slept m chat t g))
                    (add_le waited waited step (slept m chat t g) (leb_refl waited) l.0),
                leb_trans (climb step (length ts) (add waited (slept m chat t g))) timeout
                    (climb step (length ts) (add waited step)),
                leb_trans (climb step (length ts) (add waited step))
                    (climb step (length ts) (add waited (slept m chat t g))) timeout,
              ))))

    held_back :
        (queues : Bool) (timeout waited : F) (t : Try F) (later : Guard F × F)
        (rest : Option (Admission F))
        → sends rest ≡ false
        → sends (after_refusal queues timeout waited t later rest) ≡ false
    held_back false timeout waited t (g, wait) rest h = refl
    held_back true timeout waited t (g, wait) rest h =
        if_both (λ (o : Option (Admission F)). sends o ≡ false)
          (ltf timeout (add waited (fmin wait (of_int (pos 2))))) _ _ refl
          (if_both (λ (o : Option (Admission F)). sends o ≡ false) t.cancelled _ _ refl h)

    -- While a chat is paused, no round admits a write to it.
    pub admit_paused :
        (queues : Bool) (m : Text) (chat : ℤ) (timeout waited until : F) (ts : List (Try F))
        (g : Guard F)
        → method_kind m ≡ write
        → AllEarly until ts
        → IsPaused until chat g
        → sends (admit queues m (some chat) timeout waited ts g) ≡ false
    unfolding admit
    admit_paused queues m chat timeout waited until [] g k l p = refl
    admit_paused queues m chat timeout waited until (t ∷ ts) g k l p =
        rw (try_acquire_paused until chat t.now t.made m g l.0 k p) (
          held_back queues timeout waited t (asked_wait m (some chat) t g) _ (
            admit_paused queues m chat timeout (add waited (slept m (some chat) t g)) until ts
              (asked_wait m (some chat) t g).0 k l.2
              (wait_time-IsPaused until chat t.wait_now t.wait_made m _ l.1
                (try_acquire-IsPaused until chat t.now t.made m g l.0 p))))
