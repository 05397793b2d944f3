-- ===== src/Prelude/Text.antt =====
-- What the program uses of Go's package strings.
use Prim.Native.Char.{code}
use Prim.Native.String.{String}
use bs_notify_hub.Prelude.{
  ℕ, Bool, true, false, ◌||◌, ◌&&◌, Option, none, some, if◌then◌else◌, ◌==◌, leb, same, string_key,
}

-- What follows the prefix, if the text has it.
unfoldable pub after_prefix : String → String → Option String
after_prefix String.[] s = some s
after_prefix (String.◌∷◌ p ps) String.[] = none
after_prefix (String.◌∷◌ p ps) (String.◌∷◌ c s) =
    let rest = after_prefix ps s in if code p == code c then rest else none

abbrev pub or_else {ℓ} : {A : Type ℓ} → A → Option A → A
or_else a none = a
or_else a (some b) = b

abbrev is_there {ℓ} : {A : Type ℓ} → Option A → Bool
is_there none = false
is_there (some a) = true

-- strings.HasPrefix
unfoldable pub has_prefix : String → String → Bool
unfolding after_prefix
has_prefix s prefix = is_there (after_prefix prefix s)

-- strings.TrimPrefix
unfoldable pub trim_prefix : String → String → String
unfolding after_prefix
trim_prefix s prefix = or_else s (after_prefix prefix s)

-- unicode.IsSpace
unfoldable pub is_space : ℕ → Bool
is_space c =
    (leb 9 c && leb c 13)
    || c == 32
    || c == 0x85
    || c == 0xa0
    || c == 0x1680
    || (leb 0x2000 c && leb c 0x200a)
    || c == 0x2028
    || c == 0x2029
    || c == 0x202f
    || c == 0x205f
    || c == 0x3000

unfoldable pub trim_left : String → String
unfolding is_space
trim_left String.[] = ""
trim_left (String.◌∷◌ c s) =
    let rest = trim_left s in if is_space (code c) then rest else String.◌∷◌ c s

unfoldable pub trim_right : String → String
unfolding is_space
trim_right String.[] = ""
trim_right (String.◌∷◌ c s) =
    let rest = trim_right s in if is_space (code c) && same rest "" then "" else String.◌∷◌ c rest

-- strings.TrimSpace
unfoldable pub trim_space : String → String
unfolding trim_left trim_right
trim_space s = trim_right (trim_left s)

-- strings.ReplaceAll(s, c, "") for a text of one character, which is given by its code
unfoldable pub remove_all : ℕ → String → String
remove_all c String.[] = ""
remove_all c (String.◌∷◌ d s) =
    let rest = remove_all c s in if code d == c then rest else String.◌∷◌ d rest

-- What stands before the first character with the code: strings.Split(s, c)[0]
unfoldable pub before : ℕ → String → String
before c String.[] = ""
before c (String.◌∷◌ d s) = let rest = before c s in if code d == c then "" else String.◌∷◌ d rest
