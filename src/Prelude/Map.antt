-- ===== src/Prelude/Map.antt =====
-- Types whose equality is a Boolean test, and finite maps over such keys as association lists.
use Prim.Native.Nat.{ℕ}
use Prim.Native.String.{String}
use mathlib.Core.Path.{◌≡◌, refl}
use mathlib.Core.Logic.{◌↔◌}
use mathlib.Core.Bool.{Bool, true, ◌&&◌}
use mathlib.Core.Option.{Option, none, some}
use mathlib.Core.List.{List, [], ◌∷◌}
use native.Mathlib.Omega.{arith}
use text.Mathlib.Text.{◌==◌ as str_eq}
use text.Mathlib.TextEquality.{eq_iff}
use tg_session_gateway.Prelude.Int.{ℤ, eq_ℤ, eq_ℤ_iff}
use tg_session_gateway.Prelude.Tests.{◌==◌ as nat_eq, ==_iff, if◌then◌else◌}

pub record Eq {ℓ} (A : Type ℓ) : Type ℓ where
  pub beq : A → A → Bool
  pub beq_iff : (a b : A) → (beq a b ≡ true) ↔ (a ≡ b)

instance abbrev pub nat_has_eq : Eq ℕ
nat_has_eq = record { beq = nat_eq; beq_iff = ==_iff }

instance abbrev pub int_has_eq : Eq ℤ
int_has_eq = record { beq = eq_ℤ; beq_iff = eq_ℤ_iff }

instance abbrev pub string_has_eq : Eq String
string_has_eq = record { beq = str_eq; beq_iff = eq_iff }

infix 50 ◌=?◌
abbrev pub ◌=?◌ {ℓ} : {A : Type ℓ} ⦃e : Eq A⦄ → A → A → Bool
◌=?◌ ⦃e⦄ = e.beq

abbrev pair_eq : String × String → String × String → Bool
pair_eq (s, t) (u, v) = str_eq s u && str_eq t v

pub pair_eq_iff : (a b : String × String) → (pair_eq a b ≡ true) ↔ (a ≡ b)
pair_eq_iff (s, t) (u, v) = ground (arith, eq_iff s u, eq_iff t v)

instance abbrev pub pair_has_eq : Eq (String × String)
pair_has_eq = record { beq = pair_eq; beq_iff = pair_eq_iff }

pub =?_refl {ℓ} : {A : Type ℓ} ⦃e : Eq A⦄ (a : A) → (a =? a) ≡ true
=?_refl ⦃e⦄ a = (e.beq_iff a a).1 refl

module _ {ℓ κ} {K : Type ℓ} {V : Type κ} ⦃e : Eq K⦄ where
  unfoldable pub find : K → List (K × V) → Option V
  find k [] = none
  find k ((j, v) ∷ m) = if j =? k then some v else find k m

  -- `m[k] = v`
  unfoldable pub put : K → V → List (K × V) → List (K × V)
  put k v [] = (k, v) ∷ []
  put k v ((j, w) ∷ m) = if j =? k then (k, v) ∷ m else (j, w) ∷ put k v m

  -- `delete(m, k)`
  unfoldable pub remove : K → List (K × V) → List (K × V)
  remove k [] = []
  remove k ((j, w) ∷ m) = if j =? k then remove k m else (j, w) ∷ remove k m

  pub find-put :
      (k j : K) (v : V) (m : List (K × V))
      → find j (put k v m) ≡ (if k =? j then some v else find j m)
  unfolding find put
  find-put k j v [] = refl
  find-put k j v ((i, w) ∷ m) =
      ground (arith, e.beq_iff k j, e.beq_iff i k, e.beq_iff i j, find-put k j v m)

  pub find-remove :
      (k j : K) (m : List (K × V)) → find j (remove k m) ≡ (if k =? j then none else find j m)
  unfolding find remove
  find-remove k j [] = ground arith
  find-remove k j ((i, w) ∷ m) =
      ground (arith, e.beq_iff k j, e.beq_iff i k, e.beq_iff i j, find-remove k j m)

  pub find-put_self : (k : K) (v : V) (m : List (K × V)) → find k (put k v m) ≡ some v
  find-put_self k v m = rw (find-put k k v m, =?_refl k)

  pub put-put : (k : K) (v w : V) (m : List (K × V)) → put k v (put k w m) ≡ put k v m
  unfolding put
  put-put k v w [] = rw (=?_refl k)
  put-put k v w ((i, u) ∷ m) = ground (arith, e.beq_iff i k, e.beq_iff k k, put-put k v w m)
