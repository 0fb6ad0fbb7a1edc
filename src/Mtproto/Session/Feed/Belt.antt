-- ===== src/Mtproto/Session/Feed/Belt.antt =====
-- The channel updateCh of internal/mtproto/sessions.go: what pushUpdate leaves in it.
use tg_session_gateway.Prelude.{
  ℕ, suc, ◌≤◌, leb, ◌≡◌, refl, sym, ◌∙◌, ap, if◌then◌else◌, List, [], ◌∷◌, ◌++◌, length,
  length-append, append-nil, append_assoc, arith,
}
use tg_session_gateway.Float64.{Float64}
use tg_session_gateway.Mtproto.Session.Feed.{FeedUpdate, offer_update, belt_push}

-- The last n elements.
unfoldable pub newest {ℓ} : {A : Type ℓ} → ℕ → List A → List A
newest n [] = []
newest n (x ∷ xs) = let rest = newest n xs in if leb (suc (length xs)) n then x ∷ xs else rest

newest_all {ℓ} : {A : Type ℓ} (n : ℕ) (xs : List A) → length xs ≤ n → newest n xs ≡ xs
unfolding newest
newest_all n [] h = refl
newest_all n (x ∷ xs) h = ground arith

newest-newest {ℓ} :
    {A : Type ℓ} (n : ℕ) (xs ys : List A) → newest n (newest n xs ++ ys) ≡ newest n (xs ++ ys)
unfolding newest
newest-newest n [] ys = refl
newest-newest n (x ∷ xs) ys = ground (arith, newest-newest n xs ys, length-append xs ys)

length-newest {ℓ} : {A : Type ℓ} (n : ℕ) (xs : List A) → length (newest n xs) ≤ n
unfolding newest
length-newest n [] = omega arith
length-newest n (x ∷ xs) = ground (arith, length-newest n xs)

module _ ⦃N : Float64⦄ where
  open N use {F}

  -- The updates in turn.
  unfoldable pub belt_pushes : ℕ → List (FeedUpdate F) → List (FeedUpdate F) → List (FeedUpdate F)
  belt_pushes capacity [] belt = belt
  belt_pushes capacity (u ∷ us) belt = belt_pushes capacity us (belt_push capacity u belt)

  belt_push-newest :
      (n : ℕ) (u : FeedUpdate F) (belt : List (FeedUpdate F))
      → length belt ≤ n
      → belt_push n u belt ≡ newest n (belt ++ u ∷ [])
  unfolding belt_push offer_update newest
  belt_push-newest n u [] h = ground arith
  belt_push-newest n u (x ∷ belt) h =
      ground (arith, length-append belt (u ∷ []), newest_all n (belt ++ u ∷ []))

  -- The channel holds the newest updates, as many as its capacity lets it, in order: the pushes
  -- drop the oldest ones and no other.
  pub belt_pushes-newest :
      (n : ℕ) (us belt : List (FeedUpdate F))
      → length belt ≤ n
      → (belt_pushes n us belt ≡ newest n (belt ++ us)) × (length (belt_pushes n us belt) ≤ n)
  unfolding belt_pushes
  belt_pushes-newest n [] belt h =
      (sym (newest_all n belt h) ∙ ap (newest n) (sym (append-nil belt)), h)
  belt_pushes-newest n (u ∷ us) belt h =
      let b = belt_push n u belt in
      let e = belt_push-newest n u belt h in
      let short : length b ≤ n = rw e (length-newest n (belt ++ u ∷ [])) in
      let (p, l) = belt_pushes-newest n us b short in
      (
        p
            ∙ ap (λ c. newest n (c ++ us)) e
            ∙ newest-newest n (belt ++ u ∷ []) us
            ∙ ap (newest n) (append_assoc belt (u ∷ []) us),
        l,
      )
