-- ===== src/Tests/Locks.antt =====
-- The file lock of internal/lock/lock.go at concrete values.
use tg_session_gateway.Prelude.{
  ℤ, pos, ◌≡◌, refl, true, false, Option, none, some, List, [], ◌∷◌, ◌++◌, find, put, nat_has_eq,
  arith,
}
use tg_session_gateway.Float64.{integral}
use tg_session_gateway.RateGuard.Method.{Text, text}
use tg_session_gateway.Lock.{
  Attempt, LockFile, lock_of, holder_file, python_holder_fresh, read_holder, release, acquire,
}
use tg_session_gateway.Lock.Format.{python_holder_fresh-holder_file}
use tg_session_gateway.Lock.Exclusion.{Op, acquiring, releasing, Exclusive, AllGrant, run, run-held}

abbrev no_time : Text → Option ℤ
no_time t = none

abbrev new : ℤ → ℤ
new t = pos 1

python_holder_fresh-holder_file_example :
    (python_holder_fresh no_time new
        (some (holder_file (text "17") (text "pod-0") [] (text "1700000000.5")))
      ≡ false)
    × (read_holder (some (holder_file (text "17") (text "pod-0") [] (text "1700000000.5")))
        ≡ text "pid=" ++ (text "17" ++ (text "@" ++ text "pod-0")))
python_holder_fresh-holder_file_example =
    python_holder_fresh-holder_file no_time new (text "17") (text "pod-0") [] (text "1700000000.5")
      refl refl refl refl refl refl

abbrev granted : Attempt
granted = record { opened = true; flocked = true; content = none; written = [] }

abbrev denied : Attempt
denied = record { opened = true; flocked = false; content = none; written = [] }

abbrev free_file : LockFile
free_file = record { locks = []; owner = none; content = []; token_counter = 0 }

abbrev ops : List Op
ops = acquiring 1 granted ∷ acquiring 2 denied ∷ releasing 1 ∷ acquiring 2 granted ∷ []

no_holder : Exclusive free_file
unfolding find
no_holder i h = absurd (ground (arith, h))

grants : AllGrant no_time new ops free_file
unfolding acquire release find put python_holder_fresh
grants = (λ h. refl, ((λ h. absurd (ground (arith, h))), (tt, ((λ h. refl), tt))))

held_by_two : (lock_of 2 (run no_time new ops free_file)).held ≡ true
unfolding run acquire release find put python_holder_fresh
held_by_two = refl

run-held_example : (lock_of 1 (run no_time new ops free_file)).held ≡ false
run-held_example = run-held no_time new ops free_file 2 1 grants no_holder refl held_by_two
