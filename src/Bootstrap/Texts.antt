-- ===== src/Bootstrap/Texts.antt =====
-- strings.Split at a comma, and strings.TrimSpace.
use Prim.Native.Char.{Char, code}
use Prim.Native.String.{String}
use tasktify.Prelude.{ℕ, List, [], ◌∷◌, Bool, ◌||◌, ◌&&◌, ◌==◌, leb, if◌then◌else◌}

abbrev cons_first : Char → List String → List String
cons_first c [] = []
cons_first c (part ∷ parts) = String.◌∷◌ c part ∷ parts

-- strings.Split(s, ","), which has at least one part.
unfoldable pub split : String → List String
split String.[] = String.[] ∷ []
split (String.◌∷◌ c s) = if code c == b',' then String.[] ∷ split s else cons_first c (split s)

-- unicode.IsSpace
unfoldable pub is_space : Char → Bool
is_space c =
    let n : ℕ = code c in
    leb 9 n && leb n 13
    || n == 32
    || n == 0x85
    || n == 0xA0
    || n == 0x1680
    || leb 0x2000 n && leb n 0x200A
    || n == 0x2028
    || n == 0x2029
    || n == 0x202F
    || n == 0x205F
    || n == 0x3000

unfoldable pub trim_left : String → String
unfolding is_space
trim_left String.[] = String.[]
trim_left (String.◌∷◌ c s) = if is_space c then trim_left s else String.◌∷◌ c s

abbrev cons_kept : Char → String → String
cons_kept c String.[] = if is_space c then String.[] else String.◌∷◌ c String.[]
cons_kept c (String.◌∷◌ d s) = String.◌∷◌ c (String.◌∷◌ d s)

unfoldable pub trim_right : String → String
unfolding is_space
trim_right String.[] = String.[]
trim_right (String.◌∷◌ c s) = cons_kept c (trim_right s)

unfoldable pub trim_space : String → String
unfolding trim_left trim_right
trim_space s = trim_right (trim_left s)
