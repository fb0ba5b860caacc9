-- ===== src/Process/Perm.antt =====
-- The permission check (checkPerm of process/process.go).
pub mod Laws
use Prim.Native.Nat.{bit_and}
use sysbox_fs.Prelude.{
  ℕ, ◌/◌, ◌%◌, ◌^◌, Bool, true, false, ◌&&◌, ◌||◌, not, Option, none, some, List, ◌==◌, nat_eq, any,
  if◌then◌else◌,
}

-- The modes R_OK, W_OK and X_OK (domain/process.go).
abbrev pub r_ok : ℕ
r_ok = 4

abbrev pub w_ok : ℕ
w_ok = 2

abbrev pub x_ok : ℕ
x_ok = 1

-- What os.Stat and os.Lstat tell of a file: its permission bits, its owner, its kind.
pub record FileInfo : Type 0 where
  pub perm : ℕ
  pub owner : ℕ
  pub group : ℕ
  pub is_dir : Bool
  pub is_symlink : Bool

-- The effective IDs and capabilities of a process.
pub record Creds : Type 0 where
  pub uid : ℕ
  pub gid : ℕ
  pub sgid : List ℕ
  pub cap_dac_override : Bool
  pub cap_dac_read_search : Bool

-- `mode & perm == mode`.
unfoldable pub covers : ℕ → ℕ → Bool
covers mode perm = bit_and mode perm == mode

abbrev pub owner_bits : ℕ → ℕ
owner_bits perm = perm / 64 % 8

abbrev pub group_bits : ℕ → ℕ
group_bits perm = perm / 8 % 8

abbrev pub other_bits : ℕ → ℕ
other_bits perm = perm % 8

-- `fperm & 0111 != 0`.
unfoldable pub some_x : ℕ → Bool
some_x perm = perm / 64 % 2 == 1 || perm / 8 % 2 == 1 || perm % 2 == 1

abbrev pub in_group : Creds → FileInfo → Bool
in_group creds fi = fi.group == creds.gid || any (λ g. g == fi.group) creds.sgid

-- The part on CAP_DAC_OVERRIDE.
unfoldable pub dac_override : FileInfo → ℕ → Bool
dac_override fi mode = fi.is_dir || not (covers x_ok mode) || some_x fi.perm

-- The part on CAP_DAC_READ_SEARCH.
unfoldable pub dac_read_search : FileInfo → ℕ → Bool
dac_read_search fi mode = fi.is_dir && not (covers w_ok mode) || not fi.is_dir && mode == r_ok

unfoldable pub access_granted : Creds → FileInfo → ℕ → Bool
access_granted creds fi mode =
    if mode == 0
    then true
    else if fi.owner == creds.uid && covers mode (owner_bits fi.perm)
    then true
    else if in_group creds fi && covers mode (group_bits fi.perm)
    then true
    else if covers mode (other_bits fi.perm)
    then true
    else if creds.cap_dac_override && dac_override fi mode
    then true
    else creds.cap_dac_read_search && dac_read_search fi mode

-- checkPerm, on what stat returns; `none` is its error.
unfoldable pub check_perm : Creds → Option FileInfo → ℕ → Option Bool
check_perm creds none mode = none
check_perm creds (some fi) mode = some (access_granted creds fi mode)
