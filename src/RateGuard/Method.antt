-- ===== src/RateGuard/Method.antt =====
-- MethodKind of internal/rateguard/rateguard.go. A method name is its list of code points.
use Prim.Native.Char.{code}
use tg_session_gateway.Prelude.{
  ℕ, ◌+◌, Bool, true, false, ◌&&◌, ◌||◌, List, [], ◌∷◌, map, leb, ◌==◌, String, if◌then◌else◌, Eq,
  ◌≡◌, ◌↔◌, arith,
}

abbrev pub Text : Type 0
Text = List ℕ

-- The code points of a literal.
abbrev pub text : String → Text
text String.[] = []
text (String.◌∷◌ c s) = code c ∷ text s

abbrev pub text_eq : Text → Text → Bool
text_eq [] [] = true
text_eq [] (_ ∷ _) = false
text_eq (_ ∷ _) [] = false
text_eq (a ∷ s) (b ∷ t) = a == b && text_eq s t

pub text_eq_iff : (s t : Text) → (text_eq s t ≡ true) ↔ (s ≡ t)
text_eq_iff [] [] = ground arith
text_eq_iff [] (_ ∷ _) = ground arith
text_eq_iff (_ ∷ _) [] = ground arith
text_eq_iff (a ∷ s) (b ∷ t) = ground (arith, text_eq_iff s t)

instance abbrev pub text_has_eq : Eq Text
text_has_eq = record { beq = text_eq; beq_iff = text_eq_iff }

-- `strings.HasPrefix(s, p)`, the prefix first.
abbrev pub has_prefix : Text → Text → Bool
has_prefix [] s = true
has_prefix (_ ∷ _) [] = false
has_prefix (a ∷ p) (b ∷ s) = a == b && has_prefix p s

-- `strings.ToLower` as far as a comparison with ASCII text can tell: besides A to Z, the Kelvin
-- sign and the dotted capital I have ASCII letters as their lower case.
unfoldable pub lower_rune : ℕ → ℕ
lower_rune c =
    if leb b'A' c && leb c b'Z'
    then c + 32
    else if c == 0x212a
    then b'k'
    else if c == 0x130
    then b'i'
    else c

abbrev pub to_lower : Text → Text
to_lower = map lower_rune

-- A lookup in a `map[string]bool` literal.
abbrev pub contains : List Text → Text → Bool
contains [] m = false
contains (x ∷ xs) m = text_eq x m || contains xs m

abbrev pub fast_path : List Text
fast_path =
    text "answercallbackquery"
    ∷ text "answerinlinequery"
    ∷ text "answershippingquery"
    ∷ text "answerprecheckoutquery"
    ∷ text "setmessageeffect"
    ∷ []

abbrev pub read_methods : List Text
read_methods =
    text "getme"
    ∷ text "getchat"
    ∷ text "getchatmember"
    ∷ text "getchatadministrators"
    ∷ text "getuser"
    ∷ text "getmycommands"
    ∷ text "getmyname"
    ∷ text "getmydescription"
    ∷ text "getmyshortdescription"
    ∷ text "getwebhookinfo"
    ∷ text "getchatmenubutton"
    ∷ text "getmydefaultadministratorrights"
    ∷ text "getfile"
    ∷ text "getchatmembercount"
    ∷ text "getforumtopiciconstickers"
    ∷ text "getstickerset"
    ∷ []

pub data Kind : Type 0 where
  fast read write : Kind

unfoldable pub method_kind : Text → Kind
unfolding lower_rune
method_kind method =
    let m = to_lower method in
    if contains fast_path m
    then fast
    else if contains read_methods m || has_prefix (text "get") m
    then read
    else write
