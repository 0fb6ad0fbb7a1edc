-- ===== src/Mtproto/Session/Consumers.antt =====
-- The WebSocket consumers of a session, internal/mtproto/sessions.go: AddConsumer and
-- RemoveConsumer.
use tg_session_gateway.Prelude.{
  ◌≡◌, refl, ◌⊎◌, inl, inr, Bool, true, false, not, ◌||◌, if◌then◌else◌, List, [], ◌∷◌, ◌++◌,
  String, string_has_eq, ◌=?◌, =?_refl, keep, arith, Bool-cases,
}

pub record Consumers : Type 0 where
  pub consumers : List String
  pub active_consumer : String

-- The id of the last one, or "".
abbrev pub last_id : List String → String
last_id [] = ""
last_id (x ∷ []) = x
last_id (x ∷ y ∷ xs) = last_id (y ∷ xs)

-- AddConsumer; a consumer is its id here.
unfoldable pub add_consumer : String → Consumers → Consumers
add_consumer id s = record { consumers = s.consumers ++ id ∷ []; active_consumer = id }

-- RemoveConsumer
unfoldable pub remove_consumer : String → Consumers → Consumers
remove_consumer id s =
    let kept = keep (λ c. not (c =? id)) s.consumers in
    record {
      consumers = kept;
      active_consumer = if s.active_consumer =? id then last_id kept else s.active_consumer;
    }

pub data Change : Type 0 where
  added removed : String → Change

unfoldable pub change : Change → Consumers → Consumers
change (added id) s = add_consumer id s
change (removed id) s = remove_consumer id s

unfoldable pub changes : List Change → Consumers → Consumers
changes [] s = s
changes (c ∷ cs) s = changes cs (change c s)

abbrev pub attached : String → List String → Bool
attached id [] = false
attached id (c ∷ cs) = c =? id || attached id cs

-- The active consumer is attached; without consumers it is "".
abbrev pub IsActive : Consumers → Type 0
IsActive s =
    (attached s.active_consumer s.consumers ≡ true)
    ⊎ ((s.consumers ≡ []) × (s.active_consumer ≡ ""))

attached-snoc : (id : String) (cs : List String) → attached id (cs ++ id ∷ []) ≡ true
attached-snoc id [] = ground (arith, =?_refl id)
attached-snoc id (c ∷ cs) = ground (arith, attached-snoc id cs)

attached-last_id : (c : String) (cs : List String) → attached (last_id (c ∷ cs)) (c ∷ cs) ≡ true
attached-last_id c [] = ground (arith, =?_refl c)
attached-last_id c (d ∷ cs) = ground (arith, attached-last_id d cs)

attached-keep :
    (id other : String) (cs : List String)
    → (id =? other) ≡ false
    → attached id cs ≡ true
    → attached id (keep (λ c. not (c =? other)) cs) ≡ true
attached-keep id other [] h a = a
attached-keep id other (c ∷ cs) h a = ground (
  arith,
  attached-keep id other cs h,
  string_has_eq.beq_iff c id,
  string_has_eq.beq_iff c other,
  string_has_eq.beq_iff id other,
)

IsActive-last :
    (cs : List String) → IsActive (record { consumers = cs; active_consumer = last_id cs })
IsActive-last [] = inr (refl, refl)
IsActive-last (c ∷ cs) = inl (attached-last_id c cs)

keep-removed :
    (id : String) (s : Consumers) → (s.consumers ≡ []) → keep (λ c. not (c =? id)) s.consumers ≡ []
keep-removed id s e = rw e refl

IsActive-remove_consumer :
    (id : String) (s : Consumers) → IsActive s → IsActive (remove_consumer id s)
unfolding remove_consumer
IsActive-remove_consumer id s (inl a) = elim (Bool-cases (s.active_consumer =? id)) [
  | inl e ↦ rw e (IsActive-last (keep (λ c. not (c =? id)) s.consumers))
  | inr n ↦ rw n (inl (attached-keep s.active_consumer id s.consumers n a))
]
IsActive-remove_consumer id s (inr p) = elim (Bool-cases (s.active_consumer =? id)) [
  | inl e ↦ rw e (IsActive-last (keep (λ c. not (c =? id)) s.consumers))
  | inr n ↦ rw n (inr (keep-removed id s p.0, p.1))
]

IsActive-change : (c : Change) (s : Consumers) → IsActive s → IsActive (change c s)
unfolding change add_consumer
IsActive-change (added id) s a = inl (attached-snoc id s.consumers)
IsActive-change (removed id) s a = IsActive-remove_consumer id s a

IsActive-changes_from : (cs : List Change) (s : Consumers) → IsActive s → IsActive (changes cs s)
unfolding changes
IsActive-changes_from [] s a = a
IsActive-changes_from (c ∷ cs) s a = IsActive-changes_from cs (change c s) (IsActive-change c s a)

-- However consumers come and go, the active one is attached, and "" only if none is (ids may repeat,
-- and a removal takes every consumer of the id).
pub IsActive-changes :
    (cs : List Change) → IsActive (changes cs (record { consumers = []; active_consumer = "" }))
IsActive-changes cs = IsActive-changes_from cs _ (inr (refl, refl))
