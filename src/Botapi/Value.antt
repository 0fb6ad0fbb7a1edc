-- ===== src/Botapi/Value.antt =====
-- What internal/botapi reads out of decoded JSON (`any`): chat ids, numbers, strings and flags, by
-- the helpers of internal/botapi/proxy.go, internal/botapi/session.go and
-- internal/botapi/typing.go, and strconv.ParseInt as they use it.
pub mod Decimal
pub mod ChatId
use tg_session_gateway.Prelude.{
  ℤ, pos, negsuc, ◌-ℤ◌, ℕ, zero, suc, ◌+◌, ◌-◌, ◌*◌, ◌/◌, ◌%◌, Bool, true, false, ◌&&◌, Option,
  none, some, List, [], ◌∷◌, String, string_has_eq, find, leb, ◌==◌, if◌then◌else◌,
}
use tg_session_gateway.Float64.{Float64, eqf}
use tg_session_gateway.RateGuard.Method.{Text}
use tg_session_gateway.Store.Queue.{wrap64}

-- The dynamic types that the code tells apart.
pub data Value (F : Type 0) : Type 0 where
  null : Value F
  boolean : Bool → Value F
  float : F → Value F
  -- int64 or int
  integer : ℤ → Value F
  string : Text → Value F
  -- a list or a map
  compound : String → Value F

-- A `map[string]any`.
abbrev pub Object : Type 0 → Type 0
Object F = List (String × Value F)

-- `'0' <= c && c <= '9'`
abbrev pub is_digit : ℕ → Bool
is_digit c = leb b'0' c && leb c b'9'

abbrev pub all_digits : Text → Bool
all_digits [] = true
all_digits (c ∷ cs) = is_digit c && all_digits cs

-- isNumeric
unfoldable pub is_numeric : Text → Bool
is_numeric [] = false
is_numeric (c ∷ []) = is_digit c
is_numeric (c ∷ d ∷ cs) = if c == b'-' then all_digits (d ∷ cs) else all_digits (c ∷ d ∷ cs)

-- strconv.ParseInt(s, 10, 64)
unfoldable pub parse_digits : ℕ → Text → Option ℕ
parse_digits n [] = some n
parse_digits n (c ∷ cs) =
    let rest = parse_digits (n * 10 + (c - b'0')) cs in if is_digit c then rest else none

abbrev pub max_int64 : ℕ
max_int64 = 0x7fff_ffff_ffff_ffff

abbrev pub negate : ℕ → ℤ
negate zero = pos 0
negate (suc n) = negsuc n

abbrev pub in_positive : Option ℕ → Option ℤ
in_positive none = none
in_positive (some n) = if leb n max_int64 then some (pos n) else none

abbrev pub in_negative : Option ℕ → Option ℤ
in_negative none = none
in_negative (some n) = if leb n (max_int64 + 1) then some (negate n) else none

abbrev pub parse_magnitude : Text → Option ℕ
parse_magnitude [] = none
parse_magnitude (c ∷ cs) = parse_digits 0 (c ∷ cs)

unfoldable pub parse_int : Text → Option ℤ
parse_int [] = none
parse_int (c ∷ cs) =
    if c == b'-'
    then in_negative (parse_magnitude cs)
    else if c == b'+'
    then in_positive (parse_magnitude cs)
    else in_positive (parse_magnitude (c ∷ cs))

-- The loop of itoa64, on the bytes of its buffer that are left; `none` is a panic.
unfoldable pub digit_loop : ℕ → ℕ → Text → Option Text
digit_loop room zero out = some out
digit_loop zero (suc n) out = none
digit_loop (suc room) (suc n) out = digit_loop room (suc n / 10) ((b'0' + suc n % 10) ∷ out)

abbrev pub with_sign : Option Text → Option Text
with_sign none = none
with_sign (some t) = some (b'-' ∷ t)

-- `for n > 0`: the number is still negative if `n = -n` overflowed.
abbrev pub loop_of : ℤ → Option Text
loop_of (pos n) = digit_loop 24 n []
loop_of (negsuc n) = some []

-- itoa64
unfoldable pub itoa64 : ℤ → Option Text
itoa64 (pos zero) = some (b'0' ∷ [])
itoa64 (pos (suc n)) = loop_of (pos (suc n))
itoa64 (negsuc n) = with_sign (loop_of (wrap64 (pos 0 -ℤ negsuc n)))

-- truthy, truthyBool, isFalseBool
unfoldable pub truthy : {F : Type 0} → Option (Value F) → Bool
truthy (some (boolean b)) = b
truthy (some null) = false
truthy (some (float x)) = false
truthy (some (integer n)) = false
truthy (some (string s)) = false
truthy (some (compound s)) = false
truthy none = false

-- `v, ok := body[k]; ok && v != nil && !truthyBool(v) && !isFalseBool(v)`
unfoldable pub is_candidate : {F : Type 0} → Option (Value F) → Bool
is_candidate (some (float x)) = true
is_candidate (some (integer n)) = true
is_candidate (some (string s)) = true
is_candidate (some (compound s)) = true
is_candidate (some null) = false
is_candidate (some (boolean b)) = false
is_candidate none = false

-- The loop over the names of the field.
unfoldable pub chat_field : {F : Type 0} → List String → Object F → Option (Value F)
chat_field [] body = none
chat_field (k ∷ ks) body =
    let rest = chat_field ks body in if is_candidate (find k body) then find k body else rest

module _ ⦃N : Float64⦄ where
  open N use {F, leb, zero, of_int, to_int}

  -- The type switch of extractChatID.
  unfoldable pub chat_id_of : Option (Value F) → Option ℤ
  chat_id_of (some (float x)) = if eqf x (of_int (to_int x)) then some (to_int x) else none
  chat_id_of (some (integer n)) = some n
  chat_id_of (some (string s)) = if is_numeric s then parse_int s else none
  chat_id_of (some null) = none
  chat_id_of (some (boolean b)) = none
  chat_id_of (some (compound s)) = none
  chat_id_of none = none

  -- extractChatID
  unfoldable pub extract_chat_id : Object F → Option ℤ
  extract_chat_id body = chat_id_of (chat_field ("chat_id" ∷ "chat_username" ∷ "chat" ∷ []) body)

  -- toStr, on what is a string or a number (a json.Number never comes up).
  unfoldable pub to_str : Option (Value F) → Option Text
  to_str (some (string s)) = some s
  to_str (some (float x)) = itoa64 (to_int x)
  to_str (some (integer n)) = some []
  to_str (some null) = some []
  to_str (some (boolean b)) = some []
  to_str (some (compound s)) = some []
  to_str none = some []

  abbrev pub or_zero : Option F → F
  or_zero none = zero
  or_zero (some x) = x

  -- numberOf; `scan` is fmt.Sscanf of a string with "%g".
  unfoldable pub number_of : (Text → Option F) → Option (Value F) → F
  number_of scan (some (float x)) = x
  number_of scan (some (integer n)) = of_int n
  number_of scan (some (string s)) = or_zero (scan s)
  number_of scan (some null) = zero
  number_of scan (some (boolean b)) = zero
  number_of scan (some (compound s)) = zero
  number_of scan none = zero
