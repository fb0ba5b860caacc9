-- ===== src/Handler/Ints.antt =====
-- Decimal numbers in the data of a file (strings.TrimSpace and strconv.ParseInt on ASCII data, and
-- writeMaxIntToFs, writeMinIntToFs, checkIntRange of handler/implementations/utils.go).
pub mod Laws
use sysbox_fs.Prelude.{
  ℕ, zero, suc, ◌+◌, ◌-◌, ◌*◌, ◌^◌, Bool, true, false, ◌&&◌, ◌||◌, not, Option, none, some, List,
  [], ◌∷◌, ◌==◌, nat_eq, ltb, leb, if◌then◌else◌,
}
use sysbox_fs.Prelude.Int.{ℤ, pos, negsuc}
use sysbox_fs.Prelude.Bytes.{Bytes}

abbrev pub is_space : ℕ → Bool
is_space c = c == 32 || leb 9 c && leb c 13

unfoldable pub trim_left : Bytes → Bytes
trim_left [] = []
trim_left (c ∷ cs) = if is_space c then trim_left cs else c ∷ cs

unfoldable pub trim_right : Bytes → Bytes
trim_right [] = []
trim_right (c ∷ cs) = elim (trim_right cs) [
  | [] ↦ if is_space c then [] else c ∷ []
  | d ∷ ds ↦ c ∷ d ∷ ds
]

unfoldable pub digit_value : ℕ → Bytes → Option ℕ
digit_value n [] = some n
digit_value n (c ∷ cs) =
    if leb b'0' c && leb c b'9' then digit_value (n * 10 + (c - b'0')) cs else none

unfoldable pub magnitude : Bytes → Option ℕ
unfolding digit_value
magnitude [] = none
magnitude (c ∷ cs) = digit_value 0 (c ∷ cs)

-- The bounds of an int64.
unfoldable pub positive : Option ℕ → Option ℤ
positive none = none
positive (some n) = if ltb n (2 ^ 63) then some (pos n) else none

unfoldable pub negative : Option ℕ → Option ℤ
negative none = none
negative (some zero) = some (pos 0)
negative (some (suc n)) = if ltb n (2 ^ 63) then some (negsuc n) else none

unfoldable pub parse_signed : Bytes → Option ℤ
unfolding positive negative magnitude
parse_signed [] = none
parse_signed (c ∷ cs) =
    if c == b'-'
    then negative (magnitude cs)
    else if c == b'+'
    then positive (magnitude cs)
    else positive (magnitude (c ∷ cs))

-- An int64 with white space around it.
unfoldable pub parse_int : Bytes → Option ℤ
unfolding parse_signed trim_right trim_left
parse_int content = parse_signed (trim_left (trim_right content))

abbrev pub int_ltb : ℤ → ℤ → Bool
int_ltb (pos a) (pos b) = ltb a b
int_ltb (pos a) (negsuc b) = false
int_ltb (negsuc a) (pos b) = true
int_ltb (negsuc a) (negsuc b) = ltb b a

-- `none` is an error.
compare_ints : (ℤ → ℤ → Bool) → Option ℤ → Option ℤ → Option Bool
compare_ints test none curr = none
compare_ints test (some new) none = none
compare_ints test (some new) (some curr) = some (test new curr)

unfoldable pub write_max_int_to_fs : Bytes → Bytes → Option Bool
unfolding compare_ints
write_max_int_to_fs curr new = compare_ints (λ n c. int_ltb c n) (parse_int new) (parse_int curr)

unfoldable pub write_min_int_to_fs : Bytes → Bytes → Option Bool
unfolding compare_ints
write_min_int_to_fs curr new = compare_ints (λ n c. int_ltb n c) (parse_int new) (parse_int curr)

in_range : ℤ → ℤ → Option ℤ → Bool
in_range min max none = false
in_range min max (some val) = not (int_ltb val min || int_ltb max val)

unfoldable pub check_int_range : Bytes → ℤ → ℤ → Bool
unfolding in_range
check_int_range content min max = in_range min max (parse_int content)
