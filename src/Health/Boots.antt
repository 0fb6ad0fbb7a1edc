-- ===== src/Health/Boots.antt =====
-- How many boots it takes to trip the safe mode of internal/health/health.go.
use tg_session_gateway.Prelude.{
  pos, ltb_ℤ, ℕ, zero, suc, ◌+◌, ◌-◌, ◌≤◌, ◌≡◌, refl, sym, ◌∙◌, ap, subst, true, Option, none, some,
  List, [], ◌∷◌, ◌++◌, ltb, if◌then◌else◌, length, length-append, keep, All, if_both, arith,
}
use tg_session_gateway.Float64.{Float64, ltf}
use tg_session_gateway.RateGuard.Method.{Text}
use tg_session_gateway.Health.{
  BootTracker, Clock, drop, last_fifty, kept_boots, with_defaults, boots_of, record_boot, clear,
}

length-drop {ℓ} : {A : Type ℓ} (n : ℕ) (xs : List A) → length (drop n xs) ≡ length xs - n
length-drop zero xs = omega arith
length-drop (suc n) [] = omega arith
length-drop (suc n) (x ∷ xs) = omega (arith, length-drop n xs)

abbrev pub at_most_fifty : ℕ → ℕ
at_most_fifty n = if ltb 50 n then 50 else n

module _ ⦃N : Float64⦄ where
  open N use {F}

  length-last_fifty : (kept : List F) → length (last_fifty kept) ≡ at_most_fifty (length kept)
  length-last_fifty kept = ground (arith, length-drop (length kept - 50) kept)

  module _ (Recent : F → Type 0) where
    All-drop : (n : ℕ) (xs : List F) → All Recent xs → All Recent (drop n xs)
    All-drop zero xs h = h
    All-drop (suc n) [] h = h
    All-drop (suc n) (x ∷ xs) h = All-drop n xs h.1

    All-snoc : (xs : List F) (x : F) → All Recent xs → Recent x → All Recent (xs ++ (x ∷ []))
    All-snoc [] x h k = (k, tt)
    All-snoc (y ∷ xs) x h k = (h.0, All-snoc xs x h.1 k)

    -- A boot to which the recent stamps are inside the window.
    abbrev pub Sees : F → Clock → Type 0
    Sees window c = Recent c.now × ((b : F) → Recent b → ltf (c.age b) window ≡ true)

    keep-Recent :
        (window : F) (c : Clock) (boots : List F)
        → Sees window c
        → All Recent boots
        → keep (λ b. ltf (c.age b) window) boots ≡ boots
    keep-Recent window c [] s h = refl
    keep-Recent window c (b ∷ boots) s h =
        rw (s.1 b h.0) (ap (λ bs. b ∷ bs) (keep-Recent window c boots s h.1))

    kept_boots-Recent :
        (window : F) (c : Clock) (boots : List F)
        → Sees window c
        → All Recent boots
        → (length (kept_boots window c boots) ≡ at_most_fifty (length boots + 1))
          × All Recent (kept_boots window c boots)
    unfolding kept_boots
    kept_boots-Recent window c boots s h =
        let all = boots ++ (c.now ∷ []) in
        let recent : All Recent all = All-snoc boots c.now h s.0 in
        rw (keep-Recent window c boots s h) (
          length-last_fifty all ∙ ap at_most_fifty (length-append boots (c.now ∷ [])),
          if_both (All Recent) (ltb 50 (length all)) (drop (length all - 50) all) all
              (All-drop (length all - 50) all recent) recent,
        )

    module _ (encode : List F → Option Text) (decode : Text → List F) where
      -- encoding/json reads back what it writes.
      abbrev pub RoundTrips : Type 0
      RoundTrips = (bs : List F) → (raw : Text) × (encode bs ≡ some raw) × (decode raw ≡ bs)

      -- The file after these boots, each of a process of its own.
      unfoldable pub file_after : BootTracker → List Clock → Option Text → Option Text
      file_after t [] file = file
      file_after t (c ∷ cs) file = file_after t cs (record_boot encode decode c t file).1

      written-boots :
          (c : Clock) (t : BootTracker) (file : Option Text)
          → RoundTrips
          → c.is_written ≡ true
          → boots_of encode decode (record_boot encode decode c t file).1
            ≡ kept_boots (with_defaults t).window_s c (boots_of encode decode file)
      unfolding record_boot kept_boots
      written-boots c t file r w =
          let k = kept_boots (with_defaults t).window_s c (boots_of encode decode file) in
          rw ((r k).1, w) (r k).2

      file_after-boots :
          (t : BootTracker) (cs : List Clock) (file : Option Text)
          → RoundTrips
          → All (λ c. Sees (with_defaults t).window_s c × (c.is_written ≡ true)) cs
          → length (boots_of encode decode file) ≤ 50
          → All Recent (boots_of encode decode file)
          → (length (boots_of encode decode (file_after t cs file))
              ≡ at_most_fifty (length (boots_of encode decode file) + length cs))
            × All Recent (boots_of encode decode (file_after t cs file))
      unfolding file_after
      file_after-boots t [] file r s n h = (ground arith, h)
      file_after-boots t (c ∷ cs) file r s n h =
          let window = (with_defaults t).window_s in
          let file' = (record_boot encode decode c t file).1 in
          let bs = boots_of encode decode file in
          let kept = kept_boots-Recent window c bs s.0.0 h in
          let same = written-boots c t file r s.0.1 in
          let held : length (boots_of encode decode file') ≡ at_most_fifty (length bs + 1) =
            ap length same ∙ kept.0 in
          let recent : All Recent (boots_of encode decode file') =
            subst (All Recent) (sym same) kept.1 in
          let rest = file_after-boots t cs file' r s.1 (ground (arith, held)) recent in
          (ground (arith, rest.0, held), rest.1)

      -- Boot after boot from a cleared history, each inside the window of those before it and each
      -- writing the file: the next one counts itself and all of them, up to fifty, and asks for
      -- the safe mode exactly if that is over MaxBoots.
      pub record_boot-file_after :
          (c : Clock) (t : BootTracker) (cs : List Clock) (file : Option Text)
          → RoundTrips
          → All (λ b. Sees (with_defaults t).window_s b × (b.is_written ≡ true)) cs
          → Sees (with_defaults t).window_s c
          → ((record_boot encode decode c t (file_after t cs (clear file))).3
              ≡ at_most_fifty (suc (length cs)))
            × ((record_boot encode decode c t (file_after t cs (clear file))).2
                ≡ ltb_ℤ (with_defaults t).max_boots (pos (at_most_fifty (suc (length cs)))))
      unfolding record_boot clear
      record_boot-file_after c t cs file r s here =
          let before = file_after-boots t cs none r s (omega arith) tt in
          let kept =
            kept_boots-Recent (with_defaults t).window_s c
              (boots_of encode decode (file_after t cs none)) here before.1 in
          let count : length (
                kept_boots (with_defaults t).window_s c
                  (boots_of encode decode (file_after t cs none)))
              ≡ at_most_fifty (suc (length cs)) =
            kept.0 ∙ ground (arith, before.0) in
          (count, ap (λ n. ltb_ℤ (with_defaults t).max_boots (pos n)) count)
