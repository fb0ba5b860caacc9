-- ===== src/Mount/Info.antt =====
-- The mountinfo parser's state (mount/infoParser.go, domain/mount.go). The *MountInfo objects stand
-- in a heap, in the order of the lines; the maps hold references, the positions in the heap.
pub mod Indexed
use sysbox_fs.Prelude.{
  ℕ, String, Bool, Option, none, some, List, [], ◌∷◌, ◌++◌, length, get_elem?, string_eq,
}
use sysbox_fs.Prelude.Maps.{Map, lookup, insert}
use sysbox_fs.Prelude.Int.{ℤ, int_eq}

pub record MountInfo : Type 0 where
  pub mount_id : ℤ
  pub parent_id : ℤ
  pub major_minor_ver : String
  pub root : String
  pub mount_point : String
  pub options : Map String String
  pub optional_fields : Map String String
  pub fs_type : String
  pub source : String
  pub vfs_options : Map String String
  pub mp_inode : ℕ

-- What the parser reads of its container, and of the mount helper.
pub record MountPaths : Type 0 where
  pub proc_ro_paths : List String
  pub proc_mask_paths : List String
  pub proc_mounts : List String
  pub sys_mounts : List String

pub record MountInfoParser : Type 0 where
  pub fetch_options : Bool
  pub paths : MountPaths
  pub heap : List MountInfo
  pub mp_info : Map String ℕ
  pub id_info : Map ℤ ℕ
  pub fs_id_info : Map String (List ℕ)

abbrev pub new_parser : Bool → MountPaths → MountInfoParser
new_parser fetch_options paths = record {
  fetch_options = fetch_options;
  paths = paths;
  heap = [];
  mp_info = [];
  id_info = [];
  fs_id_info = [];
}

abbrev pub deref : MountInfoParser → Option ℕ → Option MountInfo
deref mi none = none
deref mi (some r) = get_elem? mi.heap r

abbrev pub deref_all : MountInfoParser → List ℕ → List MountInfo
deref_all mi [] = []
deref_all mi (r ∷ rs) = elim (get_elem? mi.heap r) [
  | none ↦ deref_all mi rs
  | some info ↦ info ∷ deref_all mi rs
]

unfoldable pub lookup_by_mount_id : MountInfoParser → ℤ → Option MountInfo
unfolding lookup
lookup_by_mount_id mi id = deref mi (lookup id mi.id_info)

unfoldable pub lookup_by_mountpoint : MountInfoParser → String → Option MountInfo
unfolding lookup
lookup_by_mountpoint mi mp = deref mi (lookup mp mi.mp_info)

unfoldable pub get_info : MountInfoParser → String → Option MountInfo
unfolding lookup
get_info mi mp = deref mi (lookup mp mi.mp_info)

unfoldable pub get_parent_mount : MountInfoParser → MountInfo → Option MountInfo
unfolding lookup
get_parent_mount mi info = deref mi (lookup info.parent_id mi.id_info)

abbrev pub slice_of : MountInfoParser → Option (List ℕ) → List MountInfo
slice_of mi none = []
slice_of mi (some rs) = deref_all mi rs

-- `mi.fsIdInfo[v]`; a missing key is the empty slice.
unfoldable pub fs_id_slice : MountInfoParser → String → List MountInfo
unfolding lookup
fs_id_slice mi v = slice_of mi (lookup v mi.fs_id_info)

unfoldable pub mount_inode : MountInfoParser → String → ℕ
unfolding lookup
mount_inode mi mp = elim (deref mi (lookup mp mi.mp_info)) [ none ↦ 0 | some info ↦ info.mp_inode ]

pub append_ref : Option (List ℕ) → ℕ → List ℕ
append_ref none r = r ∷ []
append_ref (some rs) r = rs ++ r ∷ []

-- The body of the loop of parseData, for a line that parsed: a new object, known to the three maps.
unfoldable pub add_mount : MountInfoParser → MountInfo → MountInfoParser
unfolding insert lookup append_ref
add_mount mi parsed =
    let r = length mi.heap in
    record mi {
      heap = mi.heap ++ parsed ∷ [];
      mp_info = insert parsed.mount_point r mi.mp_info;
      id_info = insert parsed.mount_id r mi.id_info;
      fs_id_info =
          insert parsed.major_minor_ver (append_ref (lookup parsed.major_minor_ver mi.fs_id_info) r)
            mi.fs_id_info;
    }
