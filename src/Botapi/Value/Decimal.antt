-- ===== src/Botapi/Value/Decimal.antt =====
-- itoa64 of internal/botapi/typing.go against strconv.ParseInt.
use tg_session_gateway.Prelude.{
  ℤ, pos, negsuc, ◌-ℤ◌, ℕ, zero, suc, ◌+◌, ◌-◌, ◌*◌, ◌/◌, ◌%◌, ◌≤◌, ◌<◌, ◌≤ℤ◌, ◌≡◌, refl, ◌∙◌, ap,
  Bool, true, some, [], ◌∷◌, arith,
}
use tg_session_gateway.RateGuard.Method.{Text}
use tg_session_gateway.Store.Queue.{wrap64}
use tg_session_gateway.Botapi.Value.{
  is_digit, all_digits, is_numeric, parse_digits, max_int64, parse_int, digit_loop, with_sign,
  loop_of, itoa64,
}

parse_digits_nil : (n : ℕ) → parse_digits n [] ≡ some n
unfolding parse_digits
parse_digits_nil n = refl

all_digits_of_parse : (n m : ℕ) (t : Text) → parse_digits n t ≡ some m → all_digits t ≡ true
unfolding parse_digits
all_digits_of_parse n m [] e = refl
all_digits_of_parse n m (c ∷ cs) e =
    ground (arith, e, all_digits_of_parse (n * 10 + (c - b'0')) m cs)

abbrev pow10 : ℕ → ℕ
pow10 zero = 1
pow10 (suc n) = 10 * pow10 n

-- The text starts with a digit.
abbrev starts_digit : Text → Bool
starts_digit [] = Bool.false
starts_digit (c ∷ cs) = is_digit c

parse_digits_cons :
    (n d : ℕ) (out : Text)
    → d < 10
    → parse_digits n ((b'0' + d) ∷ out) ≡ parse_digits (n * 10 + d) out
unfolding parse_digits
parse_digits_cons n d out h = ground arith

-- The loop stays in its buffer, and leaves the digits of the number in front.
parse-digit_loop :
    (room n : ℕ) (out : Text)
    → n < pow10 room
    → (t : Text) × (digit_loop room n out ≡ some t) × (parse_digits 0 t ≡ parse_digits n out)
unfolding digit_loop
parse-digit_loop room zero out h = (out, refl, refl)
parse-digit_loop zero (suc n) out h = absurd (omega arith)
parse-digit_loop (suc room) (suc n) out h =
    let (t, e, p) = parse-digit_loop room (suc n / 10) ((b'0' + suc n % 10) ∷ out) (omega arith) in
    (
      t,
      e,
      p
          ∙ parse_digits_cons (suc n / 10) (suc n % 10) out (omega arith)
          ∙ ap (λ m. parse_digits m out) (omega arith),
    )

digit_first :
    (room n : ℕ) (out t : Text)
    → starts_digit out ≡ true
    → digit_loop room n out ≡ some t
    → starts_digit t ≡ true
unfolding digit_loop
digit_first room zero out t d e = ground arith
digit_first zero (suc n) out t d e = ground arith
digit_first (suc room) (suc n) out t d e =
    digit_first room (suc n / 10) ((b'0' + suc n % 10) ∷ out) t (ground arith) e

digit_first_suc :
    (room n : ℕ) (t : Text) → digit_loop (suc room) (suc n) [] ≡ some t → starts_digit t ≡ true
unfolding digit_loop
digit_first_suc room n t e =
    digit_first room (suc n / 10) ((b'0' + suc n % 10) ∷ []) t (ground arith) e

parse_unsigned :
    (t : Text) (n : ℕ)
    → starts_digit t ≡ true
    → parse_digits 0 t ≡ some n
    → n ≤ max_int64
    → (is_numeric t ≡ true) × (parse_int t ≡ some (pos n))
unfolding parse_int is_numeric
parse_unsigned [] n d e h = absurd (ground arith)
parse_unsigned (c ∷ []) n d e h = ground (arith, e)
parse_unsigned (c ∷ c' ∷ cs) n d e h = ground (arith, e, all_digits_of_parse 0 n (c ∷ c' ∷ cs) e)

parse_signed :
    (t : Text) (n : ℕ)
    → starts_digit t ≡ true
    → parse_digits 0 t ≡ some (suc n)
    → n ≤ max_int64
    → (is_numeric (b'-' ∷ t) ≡ true) × (parse_int (b'-' ∷ t) ≡ some (negsuc n))
unfolding parse_int is_numeric
parse_signed [] n d e h = absurd (ground arith)
parse_signed (c ∷ cs) n d e h = ground (arith, e, all_digits_of_parse 0 (suc n) (c ∷ cs) e)

read_zero : (is_numeric (b'0' ∷ []) ≡ true) × (parse_int (b'0' ∷ []) ≡ some (pos 0))
unfolding parse_int parse_digits is_numeric
read_zero = (refl, refl)

wrap64_negated : (n : ℕ) → n < max_int64 → wrap64 (pos 0 -ℤ negsuc n) ≡ pos (suc n)
unfolding wrap64 ◌-ℤ◌
wrap64_negated n h = ground arith

-- For every int64 but the least, itoa64 stays in its buffer, isNumeric accepts its text, and
-- strconv.ParseInt reads the number back from it.
pub parse_int-itoa64 :
    (n : ℤ)
    → negsuc 0x7fff_ffff_ffff_fffe ≤ℤ n
    → n ≤ℤ pos max_int64
    → (t : Text) × (itoa64 n ≡ some t) × (is_numeric t ≡ true) × (parse_int t ≡ some n)
unfolding itoa64
parse_int-itoa64 (pos zero) l u = (b'0' ∷ [], refl, read_zero.0, read_zero.1)
parse_int-itoa64 (pos (suc n)) l u =
    let (t, e, p) = parse-digit_loop 24 (suc n) [] (omega arith) in
    let (i, q) =
      parse_unsigned t (suc n) (digit_first_suc 23 n t e) (p ∙ parse_digits_nil (suc n))
        (omega arith) in
    (t, e, i, q)
parse_int-itoa64 (negsuc n) l u =
    let (t, e, p) = parse-digit_loop 24 (suc n) [] (omega arith) in
    let (i, q) =
      parse_signed t n (digit_first_suc 23 n t e) (p ∙ parse_digits_nil (suc n)) (omega arith) in
    (
      b'-' ∷ t,
      ap (λ m. with_sign (loop_of m)) (wrap64_negated n (omega arith)) ∙ ap with_sign e,
      i,
      q,
    )
