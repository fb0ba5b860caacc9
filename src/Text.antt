-- ===== src/Text.antt =====
-- The functions of Go's strings, strconv and path/filepath packages that the program calls, on the
-- native texts.
pub mod Laws
use Prim.Native.Char.{code}
use Prim.Native.String
use Prim.Native.String.{String}
use sysbox_fs.Prelude.{
  ℕ, ◌+◌, ◌-◌, ◌*◌, Bool, true, false, ◌&&◌, ◌||◌, Option, none, some, List, [], ◌∷◌, ◌==◌, leb,
  ltb, nat_beq, string_eq, if◌then◌else◌,
}

abbrev pub concat : String → String → String
concat a b = String.◌++◌ a b

unfoldable pub has_prefix : String → String → Bool
has_prefix s String.[] = true
has_prefix String.[] (String.◌∷◌ c p) = false
has_prefix (String.◌∷◌ a s) (String.◌∷◌ c p) = nat_beq (code a) (code c) && has_prefix s p

unfoldable pub drop_prefix : String → String → String
drop_prefix s String.[] = s
drop_prefix String.[] (String.◌∷◌ c p) = ""
drop_prefix (String.◌∷◌ a s) (String.◌∷◌ c p) = drop_prefix s p

unfoldable pub trim_prefix : String → String → String
unfolding has_prefix drop_prefix
trim_prefix s p = if has_prefix s p then drop_prefix s p else s

unfoldable pub has_suffix : String → String → Bool
has_suffix String.[] t = "" == t
has_suffix (String.◌∷◌ c s) t = (String.◌∷◌ c s) == t || has_suffix s t

-- `strings.Split` by a separator of one character, given by its code.
unfoldable pub split_on : ℕ → String → List String
split_on sep String.[] = "" ∷ []
split_on sep (String.◌∷◌ c s) = elim (split_on sep s) [
  | [] ↦ []
  | w ∷ ws ↦ if nat_beq (code c) sep then "" ∷ w ∷ ws else (String.◌∷◌ c w) ∷ ws
]

-- `strings.SplitN(s, sep, 2)`: the part before the first separator, and the part after it.
unfoldable pub split_first : ℕ → String → String × Option String
split_first sep String.[] = ("", none)
split_first sep (String.◌∷◌ c s) =
    let (w, rest) = split_first sep s in
    if nat_beq (code c) sep then ("", some s) else (String.◌∷◌ c w, rest)

unfoldable pub join_with : String → List String → String
join_with sep [] = ""
join_with sep (w ∷ []) = w
join_with sep (w ∷ v ∷ ws) = concat w (concat sep (join_with sep (v ∷ ws)))

unfoldable pub is_abs : String → Bool
is_abs String.[] = false
is_abs (String.◌∷◌ c s) = nat_beq (code c) b'/'

-- The components of a cleaned path, the last one first: `.` and empty ones are dropped, and `..`
-- takes the component before it away, or stays at the front of a relative path.
clean_step : Bool → List String → String → List String
clean_step rooted [] c =
    if c == "" || c == "." then [] else if c == ".." && rooted then [] else c ∷ []
clean_step rooted (top ∷ rest) c =
    if c == "" || c == "."
    then top ∷ rest
    else if c == ".."
    then (if top == ".." then c ∷ top ∷ rest else rest)
    else c ∷ top ∷ rest

clean_loop : Bool → List String → List String → List String
clean_loop rooted out [] = out
clean_loop rooted out (c ∷ cs) = clean_loop rooted (clean_step rooted out c) cs

join_rev : String → List String → String
join_rev acc [] = acc
join_rev acc (w ∷ ws) = join_rev (concat w (concat "/" acc)) ws

join_components : List String → String
unfolding join_rev
join_components [] = ""
join_components (w ∷ ws) = join_rev w ws

-- `filepath.Clean`.
unfoldable pub clean : String → String
unfolding clean_step clean_loop join_components split_on is_abs
clean path =
    let out = clean_loop (is_abs path) [] (split_on b'/' path) in
    if is_abs path
    then concat "/" (join_components out)
    else elim out [ [] ↦ "." | w ∷ ws ↦ join_components (w ∷ ws) ]

-- `filepath.Join` of two elements: empty ones are ignored.
unfoldable pub join : String → String → String
unfolding clean
join a b =
    if a == ""
    then (if b == "" then "" else clean b)
    else if b == ""
    then clean a
    else clean (concat a (concat "/" b))

last_slash : String → String → String
last_slash seen String.[] = ""
last_slash seen (String.◌∷◌ c s) =
    let here = concat seen (String.◌∷◌ c "") in
    let rest = last_slash here s in
    if nat_beq (code c) b'/' then (if rest == "" then here else rest) else rest

-- `filepath.Dir`: all but the last component, cleaned.
unfoldable pub dir : String → String
unfolding clean last_slash
dir path = clean (last_slash "" path)

digits : ℕ → String → Option ℕ
digits n String.[] = some n
digits n (String.◌∷◌ c s) =
    let d = code c in if leb b'0' d && leb d b'9' then digits (n * 10 + (d - b'0')) s else none

-- A run of decimal digits, at least one.
unfoldable pub parse_digits : String → Option ℕ
unfolding digits
parse_digits s = if s == "" then none else digits 0 s

-- `len`: the bytes of the text in UTF-8.
unfoldable pub byte_length : String → ℕ
byte_length String.[] = 0
byte_length (String.◌∷◌ c s) =
    (if ltb (code c) 128
      then 1
      else if ltb (code c) 2048
      then 2
      else if ltb (code c) 65536
      then 3
      else 4)
    + byte_length s
