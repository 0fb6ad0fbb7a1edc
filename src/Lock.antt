-- ===== src/Lock.antt =====
-- internal/lock/lock.go: the file lock of one session. The kernel's flock, the file system, the
-- reading of a time and the clock answer by arguments. Text is bytes.
pub mod Format
pub mod Exclusion
use tg_session_gateway.Prelude.{
  pos, ℕ, zero, suc, ◌+◌, Bool, true, false, not, ◌&&◌, ◌||◌, Option, none, some, List, [], ◌∷◌,
  ◌++◌, leb, ltb, ◌==◌, if◌then◌else◌, length, find, put, nat_has_eq,
}
use tg_session_gateway.Float64.{Float64, ltf}
use tg_session_gateway.RateGuard.Method.{Text, text, text_eq}

-- splitLines
abbrev pub onto_first : ℕ → List Text → List Text
onto_first c [] = (c ∷ []) ∷ []
onto_first c (l ∷ ls) = (c ∷ l) ∷ ls

unfoldable pub split_lines : Text → List Text
split_lines [] = []
split_lines (c ∷ t) =
    let rest = split_lines t in if c == b'\n' then [] ∷ rest else onto_first c rest

-- `lines[i]`, of a list that is long enough.
unfoldable pub line : ℕ → List Text → Text
line i [] = []
line zero (l ∷ ls) = l
line (suc i) (l ∷ ls) = line i ls

abbrev pub is_empty : Text → Bool
is_empty [] = true
is_empty (c ∷ t) = false

-- What Acquire writes: the formats of Sprintf are the caller's.
unfoldable pub holder_file : (pid host boot_id stamp : Text) → Text
holder_file pid host boot_id stamp =
    pid
    ++ (b'\n'
        ∷ (host
            ++ (b'\n' ∷ (boot_id ++ (b'\n' ∷ (stamp ++ (b'\n' ∷ (text "tggw" ++ (b'\n' ∷ [])))))))))

abbrev pub or_unknown : Text → Text
or_unknown host = if is_empty host then text "unknown-host" else host

-- readHolder, on what the file holds if it can be read.
unfoldable pub read_holder : Option Text → Text
read_holder none = text "unknown"
read_holder (some raw) =
    let lines = split_lines raw in
    if is_empty (line 0 lines)
    then text "unknown"
    else text "pid=" ++ (line 0 lines ++ (text "@" ++ or_unknown (line 1 lines)))

-- Lock, by what decides: whether it has the descriptor.
pub record Lock : Type 0 where
  pub held : Bool
  pub token : ℕ

-- The answers to one Acquire.
pub record Attempt : Type 0 where
  pub opened : Bool
  pub flocked : Bool
  pub content : Option Text
  pub written : Text

-- The lock file: whose flock is on it, by the calls of flockExclusive that were granted and of
-- flockUnlock; what it holds; and the counter of acquisitions.
pub record LockFile : Type 0 where
  pub locks : List (ℕ × Lock)
  pub owner : Option ℕ
  pub content : Text
  pub token_counter : ℕ

abbrev pub no_lock : Lock
no_lock = record { held = false; token = 0 }

abbrev pub or_no_lock : Option Lock → Lock
or_no_lock none = no_lock
or_no_lock (some l) = l

abbrev pub lock_of : ℕ → LockFile → Lock
lock_of i f = or_no_lock (find i f.locks)

-- Release
unfoldable pub release : ℕ → LockFile → LockFile
release i f =
    if (lock_of i f).held
    then record f { locks = put i (record (lock_of i f) { held = false }) f.locks; owner = none }
    else f

module _ ⦃N : Float64⦄ where
  open N use {F, leb as leb_F, zero as zero_F, of_int}

  abbrev pub stale_after : F
  stale_after = of_int (pos 60)

  module _ (read_time : Text → Option F) (since : F → F) where
    abbrev pub is_fresh : Option F → Bool
    is_fresh none = false
    is_fresh (some t) = leb_F zero_F (since t) && ltf (since t) stale_after

    abbrev pub holder_lines : List Text → Bool
    holder_lines lines =
        if leb 5 (length lines) && text_eq (line 4 lines) (text "tggw")
        then false
        else if ltb (length lines) 4 || (is_empty (line 3 lines) || is_empty (line 0 lines))
        then false
        else is_fresh (read_time (line 3 lines))

    -- pythonHolderFresh; `read_time` trims and parses, `since` is the age of a time.
    unfoldable pub python_holder_fresh : Option Text → Bool
    python_holder_fresh none = false
    python_holder_fresh (some []) = false
    python_holder_fresh (some (c ∷ t)) = holder_lines (split_lines (c ∷ t))

    -- Acquire
    unfoldable pub acquire : ℕ → Attempt → LockFile → LockFile × Bool
    acquire i a f =
        if not (a.opened && a.flocked)
        then (f, false)
        else if python_holder_fresh a.content
        then (record f { owner = none }, false)
        else (
          record {
            locks = put i (record { held = true; token = f.token_counter + 1 }) f.locks;
            owner = some i;
            content = a.written;
            token_counter = f.token_counter + 1;
          },
          true,
        )
