-- ===== src/Value/Text.antt =====
-- The methods of `str` that the code calls, walked character by character.
use Prim.Native.Char.{Char, code}
use dcc_mcp_obs.Base.{
  ℕ, String, Bool, true, not, ◌&&◌, ◌||◌, List, [], ◌∷◌, Option, none, some, ◌==◌, leb, nat_eq,
  if◌then◌else◌,
}

unfoldable pub prepend : Char → List String → List String
prepend c [] = (String.◌∷◌ c String.[]) ∷ []
prepend c (w ∷ ws) = (String.◌∷◌ c w) ∷ ws

-- s.split(",")
unfoldable pub split_commas : String → List String
unfolding prepend
split_commas String.[] = String.[] ∷ []
split_commas (String.◌∷◌ c s) =
    let rest = split_commas s in if nat_eq (code c) b',' then String.[] ∷ rest else prepend c rest

-- s + t
unfoldable pub attach : String → String → String
attach String.[] t = t
attach (String.◌∷◌ c s) t = String.◌∷◌ c (attach s t)

-- ",".join(words)
unfoldable pub join_commas : List String → String
unfolding attach
join_commas [] = String.[]
join_commas (w ∷ []) = w
join_commas (w ∷ v ∷ ws) = attach w (attach "," (join_commas (v ∷ ws)))

-- s.split(".", 1)[0]
unfoldable pub before_dot : String → String
before_dot String.[] = String.[]
before_dot (String.◌∷◌ c s) =
    let rest = before_dot s in if nat_eq (code c) b'.' then String.[] else String.◌∷◌ c rest

-- s[len(prefix):] if s.startswith(prefix)
unfoldable pub strip_prefix : String → String → Option String
strip_prefix String.[] s = some s
strip_prefix (String.◌∷◌ c p) String.[] = none
strip_prefix (String.◌∷◌ c p) (String.◌∷◌ d s) =
    let rest = strip_prefix p s in if nat_eq (code c) (code d) then rest else none

-- s.endswith(suffix)
unfoldable pub ends_with : String → String → Bool
ends_with suffix String.[] = String.[] == suffix
ends_with suffix (String.◌∷◌ c s) = String.◌∷◌ c s == suffix || ends_with suffix s

-- all(p(ord(c)) for c in s)
unfoldable pub all_codes : (ℕ → Bool) → String → Bool
all_codes p String.[] = true
all_codes p (String.◌∷◌ c s) = p (code c) && all_codes p s

-- ord(c) >= 32 and ord(c) != 127
unfoldable pub printable : ℕ → Bool
printable c = leb 32 c && not (nat_eq c 127)

separator : ℕ → Bool
separator c = nat_eq c 47 || nat_eq c 92

-- s.replace("\\", "/").rsplit("/", 1)[-1]
unfoldable pub base_name : String → String
unfolding separator all_codes
base_name String.[] = String.[]
base_name (String.◌∷◌ c s) =
    let rest = base_name s in
    if all_codes (λ d. not (separator d)) (String.◌∷◌ c s) then String.◌∷◌ c s else rest
