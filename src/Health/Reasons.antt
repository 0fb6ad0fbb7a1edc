-- ===== src/Health/Reasons.antt =====
-- What degrades /readyz, through any notes of internal/health/health.go since the start.
use tg_session_gateway.Prelude.{
  ◌≡◌, refl, ◌∙◌, ap, ◌↔◌, Bool, true, false, ◌&&◌, List, [], ◌∷◌, ◌++◌, map, put, ◌=?◌, if_both,
  All, arith,
}
use tg_session_gateway.Float64.{Float64}
use tg_session_gateway.RateGuard.Method.{Text, text, text_has_eq}
use tg_session_gateway.Health.{
  less, sift, sift_all, sort_strings, turn_round, join_sorted, join, Storage, note_persist_failure,
  note_corrupt_row, note_quarantine, note_maintenance_done, degraded, new_storage, filepath_base,
}
use tg_session_gateway.Health.Order.{Shuffles, degraded-range, join_sorted-join}

pub data Note (F : Type 0) : Type 0 where
  unsaved : (where_ err : Text) → Note F
  corrupt : Note F
  quarantined : Text → Note F
  maintained : F → Note F

unfoldable pub note : {F : Type 0} → Note F → Storage F → Storage F
note (unsaved at err) s = note_persist_failure at err s
note corrupt s = note_corrupt_row s
note (quarantined path) s = note_quarantine path s
note (maintained at) s = note_maintenance_done at s

unfoldable pub notes : {F : Type 0} → List (Note F) → Storage F → Storage F
notes [] s = s
notes (n ∷ ns) s = notes ns (note n s)

-- Neither a persist failure nor a quarantined file.
abbrev pub is_harmless : {F : Type 0} → Note F → Bool
is_harmless (unsaved at err) = false
is_harmless corrupt = true
is_harmless (quarantined path) = false
is_harmless (maintained at) = true

abbrev pub all_harmless : {F : Type 0} → List (Note F) → Bool
all_harmless [] = true
all_harmless (n ∷ ns) = is_harmless n && all_harmless ns

abbrev is_none : {A : Type 0} → List A → Bool
is_none [] = true
is_none (x ∷ xs) = false

IsWritten : Text → Type 0
IsWritten t = is_none t ≡ false

sift-All : (P : Text → Type 0) (x : Text) (ps : List Text) → P x → All P ps → All P (sift x ps)
unfolding sift
sift-All P x [] k h = (k, tt)
sift-All P x (p ∷ ps) k h =
    if_both (All P) (less x p) (p ∷ sift x ps) (x ∷ p ∷ ps) (h.0, sift-All P x ps k h.1) (k, h)

sift_all-All :
    (P : Text → Type 0) (sorted xs : List Text)
    → All P sorted
    → All P xs
    → All P (sift_all sorted xs)
sift_all-All P sorted [] h k = h
sift_all-All P sorted (x ∷ xs) h k =
    sift_all-All P (sift x sorted) xs (sift-All P x sorted k.0 h) k.1

turn_round-All :
    (P : Text → Type 0) (xs done : List Text) → All P xs → All P done → All P (turn_round xs done)
unfolding turn_round
turn_round-All P [] done h k = k
turn_round-All P (x ∷ xs) done h k = turn_round-All P xs (x ∷ done) h.1 (h.0, k)

is_none-sift : (x : Text) (ps : List Text) → is_none (sift x ps) ≡ false
unfolding sift
is_none-sift x [] = refl
is_none-sift x (p ∷ ps) = ground arith

is_none-sift_all :
    (sorted xs : List Text) → is_none (sift_all sorted xs) ≡ (is_none sorted && is_none xs)
is_none-sift_all sorted [] = ground arith
is_none-sift_all sorted (x ∷ xs) =
    ground (arith, is_none-sift_all (sift x sorted) xs, is_none-sift x sorted)

is_none-turn_round :
    (xs done : List Text) → is_none (turn_round xs done) ≡ (is_none xs && is_none done)
unfolding turn_round
is_none-turn_round [] done = refl
is_none-turn_round (x ∷ xs) done = ground (arith, is_none-turn_round xs (x ∷ done))

is_none-join : (ks : List Text) → All IsWritten ks → is_none (join ks) ≡ is_none ks
unfolding join IsWritten
is_none-join [] h = refl
is_none-join ([] ∷ ks) h = absurd (ground (arith, h.0))
is_none-join ((c ∷ k) ∷ ks) h = refl

is_none-join_sorted : (ks : List Text) → All IsWritten ks → is_none (join_sorted ks) ≡ is_none ks
unfolding sort_strings
is_none-join_sorted ks h =
    let rev = sift_all [] ks in
    ap is_none (join_sorted-join ks)
    ∙ is_none-join (turn_round rev [])
        (turn_round-All IsWritten rev [] (sift_all-All IsWritten [] ks tt h) tt)
    ∙ is_none-turn_round rev []
    ∙ ground (arith, is_none-sift_all [] ks)

abbrev keys : {F : Type 0} → Storage F → List Text
keys s = map (λ e. e.0) s.reasons

put-All :
    (P : Text → Type 0) (k : Text) (v : Bool) (m : List (Text × Bool))
    → P k
    → All P (map (λ e. e.0) m)
    → All P (map (λ e. e.0) (put k v m))
unfolding put
put-All P k v [] h a = (h, tt)
put-All P k v ((j, w) ∷ m) h a =
    if_both (λ m'. All P (map (λ e. e.0) m')) (j =? k) ((k, v) ∷ m) ((j, w) ∷ put k v m) (h, a.1)
      (a.0, put-All P k v m h a.1)

is_none-put :
    (k : Text) (v : Bool) (m : List (Text × Bool)) → is_none (map (λ e. e.0) (put k v m)) ≡ false
unfolding put
is_none-put k v [] = refl
is_none-put k v ((j, w) ∷ m) = ground arith

note-keys :
    {F : Type 0} (n : Note F) (s : Storage F)
    → All IsWritten (keys s)
    → (is_none (keys (note n s)) ≡ (is_none (keys s) && is_harmless n))
      × All IsWritten (keys (note n s))
unfolding note note_persist_failure note_corrupt_row note_quarantine note_maintenance_done IsWritten
note-keys (unsaved at err) s h =
    let k = text "persist:" ++ at in
    (ground (arith, is_none-put k true s.reasons), put-All IsWritten k true s.reasons refl h)
note-keys corrupt s h = (ground arith, h)
note-keys (quarantined path) s h =
    let k = text "quarantined:" ++ filepath_base path in
    (ground (arith, is_none-put k true s.reasons), put-All IsWritten k true s.reasons refl h)
note-keys (maintained at) s h = (ground arith, h)

notes-keys :
    {F : Type 0} (ns : List (Note F)) (s : Storage F)
    → All IsWritten (keys s)
    → (is_none (keys (notes ns s)) ≡ (is_none (keys s) && all_harmless ns))
      × All IsWritten (keys (notes ns s))
unfolding notes
notes-keys [] s h = (ground arith, h)
notes-keys (n ∷ ns) s h =
    let first = note-keys n s h in
    let rest = notes-keys ns (note n s) first.1 in (ground (arith, first.0, rest.0), rest.1)

module _ ⦃N : Float64⦄ where
  open N use {F}

  -- After any notes since the start, and in whatever order the map is read, /readyz has no reason
  -- to be degraded exactly if none of them was a persist failure or a quarantined file: corrupt rows
  -- do not degrade it, and nothing that follows takes a reason back.
  pub degraded-notes :
      (range : List Text → List Text) (ns : List (Note F))
      → Shuffles range
      → (degraded range (notes ns new_storage) ≡ []) ↔ (all_harmless ns ≡ true)
  unfolding new_storage degraded
  degraded-notes range ns h =
      let s = notes ns new_storage in
      let k = notes-keys ns new_storage tt in
      let same : is_none (degraded range s) ≡ all_harmless ns =
        ap is_none (degraded-range range s h) ∙ is_none-join_sorted (keys s) k.1 ∙ k.0 in
      ground (arith, same)
