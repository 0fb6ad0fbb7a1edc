-- ===== src/Health.antt =====
-- internal/health/health.go: the storage health that degrades /readyz, and the boots that trip the
-- safe mode. Text is bytes; the clock, encoding/json and the file system answer by arguments.
pub mod Order
pub mod Reasons
pub mod Boots
use tg_session_gateway.Prelude.{
  ℤ, pos, eq_ℤ, ltb_ℤ, ℕ, zero, suc, ◌+◌, ◌-◌, Bool, true, false, ◌&&◌, ◌||◌, Option, none, some,
  List, [], ◌∷◌, ◌++◌, map, ltb, ◌==◌, if◌then◌else◌, length, take, keep, put,
}
use tg_session_gateway.Float64.{Float64, ltf, eqf}
use tg_session_gateway.RateGuard.Method.{Text, text, text_has_eq}

-- `a < b` on strings: byte by byte.
unfoldable pub less : Text → Text → Bool
less [] [] = false
less [] (b ∷ t) = true
less (a ∷ s) [] = false
less (a ∷ s) (b ∷ t) = ltb a b || a == b && less s t

-- The inner loop of sortStrings, on what stands before `s[i]`, the last first.
unfoldable pub sift : Text → List Text → List Text
sift x [] = x ∷ []
sift x (p ∷ ps) = if less x p then p ∷ sift x ps else x ∷ p ∷ ps

abbrev pub sift_all : List Text → List Text → List Text
sift_all sorted [] = sorted
sift_all sorted (x ∷ xs) = sift_all (sift x sorted) xs

unfoldable pub turn_round : List Text → List Text → List Text
turn_round [] done = done
turn_round (x ∷ xs) done = turn_round xs (x ∷ done)

-- sortStrings
unfoldable pub sort_strings : List Text → List Text
sort_strings xs = turn_round (sift_all [] xs) []

-- The last loop of joinSorted.
abbrev pub join_rest : List Text → Text
join_rest [] = []
join_rest (k ∷ ks) = text ", " ++ (k ++ join_rest ks)

unfoldable pub join : List Text → Text
join [] = []
join (k ∷ ks) = k ++ join_rest ks

-- joinSorted, on the keys in the order of the range over the map.
unfoldable pub join_sorted : List Text → Text
join_sorted [] = []
join_sorted (k ∷ ks) = join (sort_strings (k ∷ ks))

-- filepathBase: the loop runs from the end, so `none` is no slash.
abbrev pub or_here : ℕ → Text → Option Text → Option Text
or_here c rest (some base) = some base
or_here c rest none = if c == b'/' then some rest else none

abbrev pub after_slash : Text → Option Text
after_slash [] = none
after_slash (c ∷ t) = or_here c t (after_slash t)

abbrev pub or_all : Text → Option Text → Text
or_all p none = p
or_all p (some base) = base

unfoldable pub filepath_base : Text → Text
filepath_base p = or_all p (after_slash p)

pub record Storage (F : Type 0) : Type 0 where
  pub persist_failures : ℕ
  pub corrupt_rows : ℕ
  pub quarantined_files : ℕ
  pub reasons : List (Text × Bool)
  pub last_persist_error : Text
  pub last_maintenance_at : F

-- NotePersistFailure
unfoldable pub note_persist_failure : {F : Type 0} → (where_ err : Text) → Storage F → Storage F
note_persist_failure at err s = record s {
  persist_failures = s.persist_failures + 1;
  last_persist_error = at ++ (text ": " ++ err);
  reasons = put (text "persist:" ++ at) true s.reasons;
}

-- NoteCorruptRow
unfoldable pub note_corrupt_row : {F : Type 0} → Storage F → Storage F
note_corrupt_row s = record s { corrupt_rows = s.corrupt_rows + 1 }

-- NoteQuarantine
unfoldable pub note_quarantine : {F : Type 0} → Text → Storage F → Storage F
note_quarantine path s = record s {
  quarantined_files = s.quarantined_files + 1;
  reasons = put (text "quarantined:" ++ filepath_base path) true s.reasons;
}

-- NoteMaintenanceDone, with the seconds of the time.
unfoldable pub note_maintenance_done : {F : Type 0} → F → Storage F → Storage F
note_maintenance_done at s = record s { last_maintenance_at = at }

-- Degraded, with the order of the range over the map.
unfoldable pub degraded : {F : Type 0} → (List Text → List Text) → Storage F → Text
degraded range s = join_sorted (range (map (λ e. e.0) s.reasons))

-- Snapshot and nilIfEmpty.
pub record Snapshot : Type 0 where
  pub degraded_reason : Option Text
  pub persist_failures : ℕ
  pub corrupt_rows : ℕ
  pub quarantined_files : ℕ
  pub last_persist_error : Text

abbrev pub nil_if_empty : Text → Option Text
nil_if_empty [] = none
nil_if_empty (c ∷ t) = some (c ∷ t)

unfoldable pub snapshot : {F : Type 0} → (List Text → List Text) → Storage F → Snapshot
snapshot range s = record {
  degraded_reason = nil_if_empty (degraded range s);
  persist_failures = s.persist_failures;
  corrupt_rows = s.corrupt_rows;
  quarantined_files = s.quarantined_files;
  last_persist_error = take 200 s.last_persist_error;
}

-- `xs[n:]`
abbrev pub drop {ℓ} : {A : Type ℓ} → ℕ → List A → List A
drop zero xs = xs
drop (suc n) [] = []
drop (suc n) (x ∷ xs) = drop n xs

module _ ⦃N : Float64⦄ where
  open N use {F, zero as zero_F, of_int}

  -- NewStorage
  unfoldable pub new_storage : Storage F
  new_storage = record {
    persist_failures = 0;
    corrupt_rows = 0;
    quarantined_files = 0;
    reasons = [];
    last_persist_error = [];
    last_maintenance_at = zero_F;
  }

  pub record BootTracker : Type 0 where
    pub window_s : F
    pub max_boots : ℤ

  -- The zero fields of RecordBoot.
  unfoldable pub with_defaults : BootTracker → BootTracker
  with_defaults t = record {
    window_s = if eqf t.window_s zero_F then of_int (pos 600) else t.window_s;
    max_boots = if eq_ℤ t.max_boots (pos 0) then pos 5 else t.max_boots;
  }

  -- One boot: its time, how long ago a stamp is, and whether the file is written.
  pub record Clock : Type 0 where
    pub now : F
    pub age : F → F
    pub is_written : Bool

  abbrev pub last_fifty : List F → List F
  last_fifty kept = if ltb 50 (length kept) then drop (length kept - 50) kept else kept

  -- The stamps that RecordBoot keeps.
  unfoldable pub kept_boots : F → Clock → List F → List F
  kept_boots window c boots = last_fifty (keep (λ b. ltf (c.age b) window) boots ++ (c.now ∷ []))

  module _ (encode : List F → Option Text) (decode : Text → List F) where
    abbrev pub boots_of : Option Text → List F
    boots_of none = []
    boots_of (some raw) = decode raw

    abbrev pub written_over : Option Text → Bool → Option Text → Option Text
    written_over (some raw) true old = some raw
    written_over (some raw) false old = old
    written_over none w old = old

    -- RecordBoot, on the file if there is one: the tracker, the file, and the two results.
    unfoldable pub record_boot :
        Clock → BootTracker → Option Text → BootTracker × Option Text × Bool × ℕ
    record_boot c t file =
        let t' = with_defaults t in
        let kept = kept_boots t'.window_s c (boots_of file) in
        (
          t',
          written_over (encode kept) c.is_written file,
          ltb_ℤ t'.max_boots (pos (length kept)),
          length kept,
        )

-- Clear
unfoldable pub clear : Option Text → Option Text
clear file = none
