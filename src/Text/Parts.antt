-- ===== src/Text/Parts.antt =====
-- strings.TrimSpace and strings.Split, as internal/config/config.go uses them. A text is taken apart
-- by its code points.
pub mod Trim
pub mod Split
pub mod Lacking
use Prim.Native.Char.{Char, code}
use crypticquest_backend.Base.{ℕ, String, Bool, true, false, List, [], ◌∷◌, nat_eq, if◌then◌else◌}
use crypticquest_backend.Text.{is_space}

abbrev pub cons : Char → String → String
cons c s = String.◌∷◌ c s

abbrev pub append : String → String → String
append String.[] t = t
append (String.◌∷◌ c s) t = cons c (append s t)

unfoldable pub trim_left : String → String
trim_left String.[] = ""
trim_left (String.◌∷◌ c s) = let rest = trim_left s in if is_space (code c) then rest else cons c s

-- A character and what is left of the text behind it.
trim_cons : Char → String → String
trim_cons c String.[] = if is_space (code c) then "" else cons c ""
trim_cons c (String.◌∷◌ d s) = cons c (cons d s)

unfoldable pub trim_right : String → String
unfolding trim_cons
trim_right String.[] = ""
trim_right (String.◌∷◌ c s) = trim_cons c (trim_right s)

-- `strings.TrimSpace`
unfoldable pub trim_space : String → String
unfolding trim_left trim_right
trim_space s = trim_right (trim_left s)

start_part : Char → List String → List String
start_part c [] = cons c "" ∷ []
start_part c (part ∷ parts) = cons c part ∷ parts

-- `strings.Split`, for a separator of one character
unfoldable pub split_on : ℕ → String → List String
unfolding start_part
split_on sep String.[] = "" ∷ []
split_on sep (String.◌∷◌ c s) =
    let rest = split_on sep s in if nat_eq (code c) sep then "" ∷ rest else start_part c rest
