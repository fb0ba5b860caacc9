-- ===== src/Mount/Parse.antt =====
-- parseData and what it calls (mount/infoParser.go).
pub mod Laws
use sysbox_fs.Prelude.{
  ℕ, ◌-◌, ◌^◌, String, Bool, true, false, ◌||◌, not, Option, none, some, List, [], ◌∷◌, ◌==◌, ltb,
  leb, string_eq, nat_eq, length, get_elem?, take, drop, Result, ok, err, if◌then◌else◌,
}
use Prim.Native.Char.{code}
use sysbox_fs.Prelude.Maps.{Map, insert}
use sysbox_fs.Prelude.Tests.{nat_beq}
use sysbox_fs.Prelude.Int.{ℤ, pos, negsuc}
use sysbox_fs.Text.{split_on, split_first, parse_digits}
use sysbox_fs.Mount.Info.{MountInfo, MountInfoParser, add_mount}

pub data ParseError : Type 0 where
  not_enough_fields no_separator bad_mount_id bad_parent_id : ParseError

infixl 5 ◌>>=◌
abbrev ◌>>=◌ {ℓ κ} :
    {A : Type ℓ} {B : Type κ}
    → Result ParseError A
    → (A → Result ParseError B)
    → Result ParseError B
ok a >>= f = f a
err e >>= f = err e

signed : Bool → Option ℕ → Option ℤ
signed minus none = none
signed true (some n) =
    if ltb (2 ^ 63) n then none else if n == 0 then some (pos 0) else some (negsuc (n - 1))
signed false (some n) = if leb (2 ^ 63) n then none else some (pos n)

-- `strconv.Atoi`: an optional sign and decimal digits, within an int64.
unfoldable pub atoi : String → Option ℤ
unfolding signed parse_digits
atoi String.[] = none
atoi (String.◌∷◌ c s) =
    if nat_beq (code c) b'-'
    then signed true (parse_digits s)
    else if nat_beq (code c) b'+'
    then signed false (parse_digits s)
    else signed false (parse_digits (String.◌∷◌ c s))

-- The map entry of one option: the text after the first `=`, up to a second one.
option_entry : List String → Map String String → Map String String
unfolding insert
option_entry [] m = m
option_entry (key ∷ []) m = insert key "" m
option_entry (key ∷ value ∷ more) m = insert key value m

options_loop : List String → Map String String → Map String String
unfolding option_entry split_on
options_loop [] m = m
options_loop (opt ∷ opts) m = options_loop opts (option_entry (split_on b'=' opt) m)

unfoldable pub parse_options_component : String → Map String String
unfolding options_loop
parse_options_component s = options_loop (split_on b',' s) []

supported_field : String → Bool
supported_field k = k == "shared" || k == "master" || k == "propagate_from" || k == "unbindable"

or_empty : Option String → String
or_empty none = ""
or_empty (some v) = v

opt_fields_loop : List String → Map String String → Map String String
unfolding supported_field or_empty split_first insert
opt_fields_loop [] m = m
opt_fields_loop (field ∷ fields) m =
    let (key, value) = split_first b':' field in
    opt_fields_loop fields (if supported_field key then insert key (or_empty value) m else m)

unfoldable pub parse_opt_fields_component : List String → Map String String
unfolding opt_fields_loop
parse_opt_fields_component s = opt_fields_loop s []

-- `componentSplit[i]`, read only where the length was checked.
abbrev component : List String → ℕ → String
component cs i = or_empty' (get_elem? cs i)
  where
    or_empty' : Option String → String
    or_empty' none = ""
    or_empty' (some v) = v

abbrev or_error {ℓ} : {A : Type ℓ} → Option A → ParseError → Result ParseError A
or_error none e = err e
or_error (some a) e = ok a

abbrev check : Bool → ParseError → Result ParseError (Unit {0})
check true e = ok tt
check false e = err e

-- The 'deep' part of parseComponents.
fetch_all : List String → MountInfo → MountInfo
unfolding parse_options_component parse_opt_fields_component
fetch_all cs mount =
    let n = length cs in
    let mount' = record mount {
      options = parse_options_component (component cs 5);
      vfs_options = parse_options_component (component cs (n - 1));
    } in
    if component cs 6 == ""
    then mount'
    else record mount' { optional_fields = parse_opt_fields_component (drop 6 (take (n - 4) cs)) }

unfoldable pub parse_components : Bool → String → Result ParseError MountInfo
unfolding split_on atoi fetch_all
parse_components fetch_options line = do
  let cs = split_on b' ' line
  let n = length cs
  _ ← check (not (ltb n 10)) not_enough_fields
  _ ← check (component cs (n - 4) == "-") no_separator
  mount_id ← or_error (atoi (component cs 0)) bad_mount_id
  parent_id ← or_error (atoi (component cs 1)) bad_parent_id
  let mount : MountInfo = record {
    mount_id = mount_id;
    parent_id = parent_id;
    major_minor_ver = component cs 2;
    root = component cs 3;
    mount_point = component cs 4;
    options = [];
    optional_fields = [];
    fs_type = component cs (n - 3);
    source = component cs (n - 2);
    vfs_options = [];
    mp_inode = 0;
  }
  ok (if fetch_options then fetch_all cs mount else mount)

-- The loop over the lines of the scanner; the first bad line ends it.
unfoldable pub parse_data : MountInfoParser → List String → Result ParseError MountInfoParser
unfolding parse_components add_mount
parse_data mi [] = ok mi
parse_data mi (line ∷ lines) = do
  parsed ← parse_components mi.fetch_options line
  parse_data (add_mount mi parsed) lines
