-- ===== src/Tests/Health.antt =====
-- Concrete notes and boots of internal/health/health.go. Numbers are integers, which `integral` makes
-- an instance of the interface.
use mathlib.Core.List.{Permᴰ}
use mathlib.Core.List.Permᴰ
use tg_session_gateway.Prelude.{
  ℤ, pos, negsuc, ◌-ℤ◌, leb_ℤ, ℕ, zero, suc, ◌<◌, ap, ◌≡◌, refl, ◌↔◌, Bool, true, Option, some,
  List, [], ◌∷◌, ltb_ℤ, arith,
}
use tg_session_gateway.Float64.{integral, ltf}
use tg_session_gateway.RateGuard.Method.{Text, text}
use tg_session_gateway.Health.{
  Storage, degraded, snapshot, new_storage, BootTracker, Clock, record_boot, clear, with_defaults,
}
use tg_session_gateway.Health.Order.{snapshot-range}
use tg_session_gateway.Health.Reasons.{
  Note, unsaved, corrupt, quarantined, maintained, notes, all_harmless, degraded-notes,
}
use tg_session_gateway.Health.Boots.{file_after, record_boot-file_after}

-- The first two keys change places.
abbrev swap_two : List Text → List Text
swap_two [] = []
swap_two (x ∷ []) = x ∷ []
swap_two (x ∷ y ∷ xs) = y ∷ x ∷ xs

swap_two-shuffles : (keys : List Text) → Permᴰ (swap_two keys) keys
swap_two-shuffles [] = Permᴰ.refl []
swap_two-shuffles (x ∷ []) = Permᴰ.refl (x ∷ [])
swap_two-shuffles (x ∷ y ∷ xs) = Permᴰ.swap refl refl

abbrev bad_day : List (Note ℤ)
bad_day =
    unsaved (text "offsets") (text "disk full")
    ∷ corrupt
    ∷ quarantined (text "/data/gw.db")
    ∷ maintained (pos 9)
    ∷ []

abbrev bad_storage : Storage ℤ
bad_storage = notes bad_day new_storage

snapshot-range_example : snapshot swap_two bad_storage ≡ snapshot (λ keys. keys) bad_storage
snapshot-range_example =
    snapshot-range swap_two (λ keys. keys) bad_storage swap_two-shuffles Permᴰ.refl

degraded-notes_example :
    (degraded swap_two (notes bad_day new_storage) ≡ []) ↔ (all_harmless bad_day ≡ true)
degraded-notes_example = degraded-notes swap_two bad_day swap_two-shuffles

-- A sign and a size for every number.
abbrev encode_all : List ℤ → Text
encode_all [] = []
encode_all (pos n ∷ xs) = 0 ∷ n ∷ encode_all xs
encode_all (negsuc n ∷ xs) = 1 ∷ n ∷ encode_all xs

abbrev decode_all : Text → List ℤ
decode_all [] = []
decode_all (s ∷ []) = []
decode_all (zero ∷ n ∷ t) = pos n ∷ decode_all t
decode_all (suc s ∷ n ∷ t) = negsuc n ∷ decode_all t

decode_all-encode_all : (xs : List ℤ) → decode_all (encode_all xs) ≡ xs
decode_all-encode_all [] = refl
decode_all-encode_all (pos n ∷ xs) = ap (λ ys. pos n ∷ ys) (decode_all-encode_all xs)
decode_all-encode_all (negsuc n ∷ xs) = ap (λ ys. negsuc n ∷ ys) (decode_all-encode_all xs)

abbrev IsRecent : ℤ → Type 0
IsRecent b = leb_ℤ (pos 0) b ≡ true

abbrev booting : ℕ → Clock
booting n = record { now = pos n; age = λ b. pos n -ℤ b; is_written = true }

abbrev tracker : BootTracker
tracker = record { window_s = pos 0; max_boots = pos 0 }

-- The five seconds from the first boot on, in a window that no field sets.
booting-sees :
    (n : ℕ)
    → n < 600
    → IsRecent (pos n)
      × ((b : ℤ) → IsRecent b → ltf ((booting n).age b) (with_defaults tracker).window_s ≡ true)
unfolding ◌-ℤ◌ with_defaults
booting-sees n h = (ground arith, λ b k. ground arith)

abbrev five_boots : List Clock
five_boots = booting 1 ∷ booting 2 ∷ booting 3 ∷ booting 4 ∷ booting 5 ∷ []

abbrev sixth : BootTracker × Option Text × Bool × ℕ
sixth =
    record_boot (λ bs. some (encode_all bs)) decode_all (booting 6) tracker
      (file_after IsRecent (λ bs. some (encode_all bs)) decode_all tracker five_boots
        (clear (some (text "[]"))))

record_boot-file_after_example :
    (sixth.3 ≡ 6) × (sixth.2 ≡ ltb_ℤ (with_defaults tracker).max_boots (pos 6))
record_boot-file_after_example =
    record_boot-file_after IsRecent (λ bs. some (encode_all bs)) decode_all (booting 6) tracker
      five_boots (some (text "[]")) (λ bs. (encode_all bs, refl, decode_all-encode_all bs))
      (
        (booting-sees 1 (omega arith), refl),
        (
          (booting-sees 2 (omega arith), refl),
          (
            (booting-sees 3 (omega arith), refl),
            ((booting-sees 4 (omega arith), refl), ((booting-sees 5 (omega arith), refl), tt)),
          ),
        ),
      )
      (booting-sees 6 (omega arith))
