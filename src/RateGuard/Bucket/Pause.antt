-- ===== src/RateGuard/Bucket/Pause.antt =====
-- A paused bucket gives nothing away until the pause is over.
use tg_session_gateway.Prelude.{◌≡◌, refl, Bool, true, false, arith, if◌then◌else◌, List, [], ◌∷◌}
use tg_session_gateway.Float64.{Float64, ltf, le-fmax_right, ltf_of_ltf_of_le}
use tg_session_gateway.RateGuard.Bucket.{Bucket, unpause, accrue, refill, try_take, pause}

module _ ⦃N : Float64⦄ where
  open N use {F, leb, zero, add, leb_refl, leb_trans}

  -- Attempts at a list of clock readings, oldest first: the bucket, and whether one succeeded.
  pub attempts : List F → Bucket F → Bucket F × Bool
  attempts [] b = (b, false)
  attempts (t ∷ ts) b =
      let (b', got) = try_take b t in
      let (b'', later) = attempts ts b' in (b'', if got then true else later)

  -- Every reading is before `until`.
  abbrev pub Before : F → List F → Type 0
  Before until [] = Unit {0}
  Before until (t ∷ ts) = (ltf t until ≡ true) × Before until ts

  pub refill_paused :
      (b : Bucket F) (t : F)
      → ltf t b.paused_until ≡ true
      → (refill b t).paused_until ≡ b.paused_until
  unfolding refill accrue unpause
  refill_paused b t h = ground arith

  pub try_take_paused :
      (b : Bucket F) (t : F)
      → ltf t b.paused_until ≡ true
      → ((try_take b t).1 ≡ false) × ((try_take b t).0.paused_until ≡ b.paused_until)
  unfolding try_take
  try_take_paused b t h = ground (arith, refill_paused b t h)

  attempts_paused :
      (until : F) (ts : List F) (b : Bucket F)
      → Before until ts
      → leb until b.paused_until ≡ true
      → (attempts ts b).1 ≡ false
  unfolding attempts
  attempts_paused until [] b h k = refl
  attempts_paused until (t ∷ ts) b h k =
      let (missed, kept) = try_take_paused b t (ltf_of_ltf_of_le t until b.paused_until h.0 k) in
      rw missed (attempts_paused until ts (try_take b t).0 h.1 (rw kept k))

  -- After Pause(seconds, now) no take before now + seconds succeeds, however often and in
  -- whatever order the takes are tried.
  pub attempts-pause :
      (seconds now : F) (b : Bucket F) (ts : List F)
      → Before (add now seconds) ts
      → (attempts ts (pause seconds now b)).1 ≡ false
  unfolding pause
  attempts-pause seconds now b ts h =
      attempts_paused (add now seconds) ts (pause seconds now b) h
        (le-fmax_right b.paused_until (add now seconds))
