-- ===== src/Health/Order.antt =====
-- The sort of internal/health/health.go does not see the order of its input.
use mathlib.Core.List.{Permᴰ}
use tg_session_gateway.Prelude.{
  ◌≡◌, refl, sym, ◌∙◌, ap, map, take, true, false, List, [], ◌∷◌, arith,
}
use tg_session_gateway.RateGuard.Method.{Text}
use tg_session_gateway.Health.{
  less, sift, sift_all, sort_strings, turn_round, join_sorted, join, Storage, degraded, snapshot,
  nil_if_empty,
}

-- Two texts neither of which is less than the other are the same.
same_of_not_less : (s t : Text) → less s t ≡ false → less t s ≡ false → s ≡ t
unfolding less
same_of_not_less [] [] h k = refl
same_of_not_less [] (b ∷ t) h k = absurd (ground arith)
same_of_not_less (a ∷ s) [] h k = absurd (ground arith)
same_of_not_less (a ∷ s) (b ∷ t) h k = ground (arith, same_of_not_less s t)

less_asymm : (s t : Text) → less s t ≡ true → less t s ≡ false
unfolding less
less_asymm [] [] h = absurd (ground arith)
less_asymm [] (b ∷ t) h = refl
less_asymm (a ∷ s) [] h = absurd (ground arith)
less_asymm (a ∷ s) (b ∷ t) h = ground (arith, less_asymm s t)

less_of_less_of_not : (s t u : Text) → less s t ≡ true → less u t ≡ false → less s u ≡ true
unfolding less
less_of_less_of_not [] [] u h k = absurd (ground arith)
less_of_less_of_not [] (b ∷ t) [] h k = absurd (ground arith)
less_of_less_of_not [] (b ∷ t) (c ∷ u) h k = refl
less_of_less_of_not (a ∷ s) [] u h k = absurd (ground arith)
less_of_less_of_not (a ∷ s) (b ∷ t) [] h k = absurd (ground arith)
less_of_less_of_not (a ∷ s) (b ∷ t) (c ∷ u) h k = ground (arith, less_of_less_of_not s t u)

sift-sift : (x y : Text) (ps : List Text) → sift x (sift y ps) ≡ sift y (sift x ps)
unfolding sift
sift-sift x y [] = ground (arith, same_of_not_less x y, less_asymm x y)
sift-sift x y (p ∷ ps) = ground (
  arith,
  same_of_not_less x y,
  less_asymm x y,
  less_of_less_of_not x p y,
  less_of_less_of_not y p x,
  sift-sift x y ps,
)

sift_all-Perm :
    {xs ys : List Text}
    → Permᴰ xs ys
    → (sorted : List Text) → sift_all sorted xs ≡ sift_all sorted ys
sift_all-Perm Permᴰ.nil sorted = refl
sift_all-Perm (Permᴰ.cons {b = b} {l₁ = l} same p) sorted =
    ap (λ x. sift_all (sift x sorted) l) same ∙ sift_all-Perm p (sift b sorted)
sift_all-Perm (Permᴰ.swap {a = a} {b = b} {b' = b'} {l = l} same same') sorted =
    ap (λ zs. sift_all zs l)
      (sift-sift b a sorted
        ∙ ap (λ x. sift x (sift b sorted)) same
        ∙ ap (λ y. sift b' (sift y sorted)) same')
sift_all-Perm (Permᴰ.trans p q) sorted = sift_all-Perm p sorted ∙ sift_all-Perm q sorted

pub join_sorted-join : (xs : List Text) → join_sorted xs ≡ join (sort_strings xs)
unfolding join_sorted join sort_strings turn_round
join_sorted-join [] = refl
join_sorted-join (x ∷ xs) = refl

pub join_sorted-Perm : {xs ys : List Text} → Permᴰ xs ys → join_sorted xs ≡ join_sorted ys
unfolding sort_strings
join_sorted-Perm {xs} {ys} p =
    join_sorted-join xs
    ∙ ap (λ zs. join (turn_round zs [])) (sift_all-Perm p [])
    ∙ sym (join_sorted-join ys)

-- An order in which a range over a map gives its keys.
abbrev pub Shuffles : (List Text → List Text) → Type 0
Shuffles range = (keys : List Text) → Permᴰ (range keys) keys

pub degraded-range :
    {F : Type 0} (range : List Text → List Text) (s : Storage F)
    → Shuffles range
    → degraded range s ≡ degraded (λ keys. keys) s
unfolding degraded
degraded-range range s h = join_sorted-Perm (h (map (λ e. e.0) s.reasons))

-- Whatever orders two ranges over the map of reasons take, the report of /readyz is the same.
pub snapshot-range :
    {F : Type 0} (range range' : List Text → List Text) (s : Storage F)
    → Shuffles range
    → Shuffles range'
    → snapshot range s ≡ snapshot range' s
unfolding snapshot
snapshot-range range range' s h k =
    ap
      (λ reason. record {
        degraded_reason = nil_if_empty reason;
        persist_failures = s.persist_failures;
        corrupt_rows = s.corrupt_rows;
        quarantined_files = s.quarantined_files;
        last_persist_error = take 200 s.last_persist_error;
      })
      (degraded-range range s h ∙ sym (degraded-range range' s k))
