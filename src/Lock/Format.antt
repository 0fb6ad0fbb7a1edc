-- ===== src/Lock/Format.antt =====
-- The lock file that internal/lock/lock.go writes against what it reads.
use tg_session_gateway.Prelude.{
  ◌≡◌, refl, ◌∙◌, ap, Bool, true, false, not, ◌&&◌, Option, some, [], ◌∷◌, ◌++◌, ◌==◌, arith,
}
use tg_session_gateway.Float64.{Float64}
use tg_session_gateway.RateGuard.Method.{Text, text}
use tg_session_gateway.Lock.{
  split_lines, line, is_empty, holder_file, read_holder, holder_lines, python_holder_fresh,
}

-- No line ends in the text.
abbrev pub one_line : Text → Bool
one_line [] = true
one_line (c ∷ t) = not (c == b'\n') && one_line t

split_lines_nil : split_lines [] ≡ []
unfolding split_lines
split_lines_nil = refl

split_lines-append :
    (l t : Text) → one_line l ≡ true → split_lines (l ++ b'\n' ∷ t) ≡ l ∷ split_lines t
unfolding split_lines
split_lines-append [] t h = refl
split_lines-append (c ∷ l) t h = ground (arith, h, split_lines-append l t)

split_lines-holder_file :
    (pid host boot_id stamp : Text)
    → one_line pid ≡ true
    → one_line host ≡ true
    → one_line boot_id ≡ true
    → one_line stamp ≡ true
    → split_lines (holder_file pid host boot_id stamp)
      ≡ pid ∷ host ∷ boot_id ∷ stamp ∷ text "tggw" ∷ []
unfolding holder_file
split_lines-holder_file pid host boot_id stamp a b c d =
    split_lines-append pid _ a
    ∙ ap (pid ∷◌) (
        split_lines-append host _ b
        ∙ ap (host ∷◌) (
            split_lines-append boot_id _ c
            ∙ ap (boot_id ∷◌) (
                split_lines-append stamp _ d
                ∙ ap (stamp ∷◌) (
                    split_lines-append (text "tggw") [] refl
                    ∙ ap (text "tggw" ∷◌) split_lines_nil))))

module _ ⦃N : Float64⦄ where
  open N use {F}

  module _ (read_time : Text → Option F) (since : F → F) where
    python_holder_fresh-split_lines :
        (raw : Text)
        → python_holder_fresh read_time since (some raw)
          ≡ holder_lines read_time since (split_lines raw)
    unfolding python_holder_fresh line split_lines
    python_holder_fresh-split_lines [] = refl
    python_holder_fresh-split_lines (c ∷ t) = refl

    own_lines :
        (pid host boot_id stamp : Text)
        → holder_lines read_time since (pid ∷ host ∷ boot_id ∷ stamp ∷ text "tggw" ∷ []) ≡ false
    unfolding line
    own_lines pid host boot_id stamp = refl

    -- The file that Acquire writes is never taken for that of a live Python holder, at whatever
    -- age, and readHolder reads the process and the host back from it, so long as no part of it has
    -- a line end and neither of the two is empty.
    pub python_holder_fresh-holder_file :
        (pid host boot_id stamp : Text)
        → one_line pid ≡ true
        → one_line host ≡ true
        → one_line boot_id ≡ true
        → one_line stamp ≡ true
        → is_empty pid ≡ false
        → is_empty host ≡ false
        → let raw = holder_file pid host boot_id stamp in
          (python_holder_fresh read_time since (some raw) ≡ false)
          × (read_holder (some raw) ≡ text "pid=" ++ (pid ++ (text "@" ++ host)))
    unfolding read_holder line
    python_holder_fresh-holder_file pid host boot_id stamp a b c d p h =
        let lines = split_lines-holder_file pid host boot_id stamp a b c d in
        (
          python_holder_fresh-split_lines (holder_file pid host boot_id stamp)
              ∙ ap (holder_lines read_time since) lines
              ∙ own_lines pid host boot_id stamp,
          rw (lines, p, h) refl,
        )
