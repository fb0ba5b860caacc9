-- ===== src/Mount/Flags.antt =====
-- The mount flags of mount/helper.go. A flag is a power of two; `f & b == b`, `f |= b` and
-- `f &^ b` of one flag are written by the digit of `f` at `b`.
pub mod Laws
use Prim.Native.Nat.{bit_or}
use sysbox_fs.Text.{join_with}
use sysbox_fs.Prelude.{
  ℕ, ◌+◌, ◌-◌, ◌/◌, ◌%◌, String, Bool, true, false, ◌&&◌, ◌||◌, not, Option, none, some, List, [],
  ◌∷◌, ◌==◌, nat_beq, string_eq, if◌then◌else◌,
}
use sysbox_fs.Prelude.Maps.{Map, lookup, has_key}

-- The flags that the program names, as unix.MS_* defines them.
abbrev pub ms_rdonly : ℕ
ms_rdonly = 1

abbrev pub ms_nosuid : ℕ
ms_nosuid = 2

abbrev pub ms_nodev : ℕ
ms_nodev = 4

abbrev pub ms_noexec : ℕ
ms_noexec = 8

abbrev pub ms_synchronous : ℕ
ms_synchronous = 16

abbrev pub ms_remount : ℕ
ms_remount = 32

abbrev pub ms_noatime : ℕ
ms_noatime = 1024

abbrev pub ms_nodiratime : ℕ
ms_nodiratime = 2048

abbrev pub ms_bind : ℕ
ms_bind = 4096

abbrev pub ms_move : ℕ
ms_move = 8192

abbrev pub ms_rec : ℕ
ms_rec = 16384

abbrev pub ms_unbindable : ℕ
ms_unbindable = 0x20000

abbrev pub ms_private : ℕ
ms_private = 0x40000

abbrev pub ms_slave : ℕ
ms_slave = 0x80000

abbrev pub ms_shared : ℕ
ms_shared = 0x100000

abbrev pub ms_relatime : ℕ
ms_relatime = 0x200000

abbrev pub ms_strictatime : ℕ
ms_strictatime = 0x1000000

-- `flags & b == b`, for one flag `b`.
unfoldable pub has_flag : ℕ → ℕ → Bool
has_flag b flags = nat_beq (flags / b % 2) 1

-- `flags | b`, for one flag `b`.
unfoldable pub set_flag : ℕ → ℕ → ℕ
unfolding has_flag
set_flag b flags = if has_flag b flags then flags else flags + b

-- `flags &^ b`, for one flag `b`.
unfoldable pub clear_flag : ℕ → ℕ → ℕ
unfolding has_flag
clear_flag b flags = if has_flag b flags then flags - b else flags

-- `flags & mountPropFlags != 0`.
unfoldable pub has_propagation_flag : ℕ → Bool
unfolding has_flag
has_propagation_flag flags =
    has_flag ms_shared flags
    || has_flag ms_private flags
    || has_flag ms_slave flags
    || has_flag ms_unbindable flags

-- `flags & mountModFlags != 0`.
unfoldable pub has_mod_flag : ℕ → Bool
unfolding has_propagation_flag
has_mod_flag flags =
    has_flag ms_remount flags
    || has_flag ms_bind flags
    || has_flag ms_move flags
    || has_propagation_flag flags

-- MS_MGC_MSK is 0xffff0000 and MS_MGC_VAL is 0xC0ED0000: the second half-word.
unfoldable pub is_new_mount : ℕ → Bool
unfolding has_mod_flag
is_new_mount flags = nat_beq (flags / 0x10000 % 0x10000) 0xC0ED || not (has_mod_flag flags)

unfoldable pub is_remount : ℕ → Bool
unfolding has_flag
is_remount = has_flag ms_remount

unfoldable pub is_bind : ℕ → Bool
unfolding has_flag
is_bind = has_flag ms_bind

unfoldable pub is_move : ℕ → Bool
unfolding has_flag
is_move = has_flag ms_move

unfoldable pub is_read_only_mount : ℕ → Bool
unfolding has_flag
is_read_only_mount = has_flag ms_rdonly

-- flagsMap, but for its entry "ro".
abbrev pub other_flags : Map String ℕ
other_flags =
    ("nodev", ms_nodev)
    ∷ ("noexec", ms_noexec)
    ∷ ("nosuid", ms_nosuid)
    ∷ ("noatime", ms_noatime)
    ∷ ("nodiratime", ms_nodiratime)
    ∷ ("relatime", ms_relatime)
    ∷ ("strictatime", ms_strictatime)
    ∷ ("sync", ms_synchronous)
    ∷ []

abbrev pub flags_map : Map String ℕ
flags_map = ("ro", ms_rdonly) ∷ other_flags

unfoldable pub or_flag : Option ℕ → ℕ → ℕ
unfolding set_flag
or_flag none flags = flags
or_flag (some val) flags = set_flag val flags

-- One round of the loop of StringToFlags.
unfoldable pub add_option : String → ℕ → ℕ
add_option k flags = if k == "rw" then flags else or_flag (lookup k flags_map) flags

unfoldable pub string_to_flags : Map String String → ℕ
string_to_flags [] = 0
string_to_flags ((k, v) ∷ s) = add_option k (string_to_flags s)

filter_options : Map String String → List String
unfolding has_key
filter_options [] = []
filter_options ((k, v) ∷ s) =
    if has_key k flags_map && not (k == "rw") then k ∷ filter_options s else filter_options s

unfoldable pub filter_fs_flags : Map String String → String
unfolding filter_options join_with
filter_fs_flags fs_opts = join_with "," (filter_options fs_opts)

-- `a | b` of two sets of flags.
abbrev pub union_flags : ℕ → ℕ → ℕ
union_flags = bit_or
