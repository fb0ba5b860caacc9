-- ===== src/Mount/Query.antt =====
-- The queries of the mountinfo parser (mount/infoParser.go). `none` of an `Option (List …)` or of an
-- `Option Bool` is a nil dereference. Go ranges over a map in no fixed order; here it is the list's.
pub mod Laws
use sysbox_fs.Prelude.{
  ℕ, String, Bool, true, false, ◌&&◌, ◌||◌, not, Option, none, some, List, [], ◌∷◌, ◌==◌, string_eq,
  get_elem?, any, find, if◌then◌else◌,
}
use sysbox_fs.Prelude.Maps.{Map}
use sysbox_fs.Prelude.Int.{ℤ, int_eq}
use sysbox_fs.Text.{has_suffix, trim_prefix}
use sysbox_fs.Mount.Flags.{string_to_flags, is_read_only_mount}
use sysbox_fs.Mount.Info.{MountInfo, MountInfoParser, get_info, get_parent_mount, fs_id_slice}

-- `isSysboxfsBaseMount(info)`.
unfoldable pub is_base_info : MountInfo → Bool
is_base_info info = (info.fs_type == "proc" || info.fs_type == "sysfs") && info.root == "/"

unfoldable pub is_mountpoint_under : String → List String → Bool
is_mountpoint_under mountpoint mp_set = any (λ mp. has_suffix mp mountpoint) mp_set

unfoldable pub is_sysboxfs_submount_of : MountInfoParser → MountInfo → MountInfo → Bool
unfolding is_mountpoint_under
is_sysboxfs_submount_of mi info base =
    let rel = trim_prefix info.mount_point base.mount_point in
    if not (info.parent_id == base.mount_id)
    then false
    else if base.fs_type == "proc"
    then is_mountpoint_under rel mi.paths.proc_mounts
      || is_mountpoint_under rel mi.paths.proc_ro_paths
      || is_mountpoint_under rel mi.paths.proc_mask_paths
    else if base.fs_type == "sysfs"
    then is_mountpoint_under rel mi.paths.sys_mounts
    else false

pub submount_of_parent : MountInfoParser → MountInfo → Option MountInfo → Bool
unfolding is_base_info is_sysboxfs_submount_of
submount_of_parent mi info none = false
submount_of_parent mi info (some parent) =
    is_base_info parent && is_sysboxfs_submount_of mi info parent

-- `isSysboxfsSubMount(info)`.
unfoldable pub is_submount_info : MountInfoParser → MountInfo → Bool
unfolding submount_of_parent get_parent_mount
is_submount_info mi info = submount_of_parent mi info (get_parent_mount mi info)

unfoldable pub holds : (MountInfo → Bool) → Option MountInfo → Bool
holds p none = false
holds p (some info) = p info

unfoldable pub is_sysboxfs_base_mount : MountInfoParser → String → Bool
unfolding holds is_base_info
is_sysboxfs_base_mount mi mountpoint = holds is_base_info (get_info mi mountpoint)

-- `IsRoMount`, at an entry that is not nil.
unfoldable pub is_ro_mount : MountInfo → Bool
unfolding is_read_only_mount string_to_flags
is_ro_mount info = is_read_only_mount (string_to_flags info.options)

unfoldable pub is_sysboxfs_base_ro_mount : MountInfoParser → String → Bool
unfolding holds is_base_info is_ro_mount
is_sysboxfs_base_ro_mount mi mountpoint =
    holds (λ info. is_base_info info && is_ro_mount info) (get_info mi mountpoint)

unfoldable pub is_sysboxfs_submount : MountInfoParser → String → Bool
unfolding holds is_submount_info
is_sysboxfs_submount mi mountpoint = holds (is_submount_info mi) (get_info mi mountpoint)

-- A submount of a procfs that one of the container's path lists names.
listed_under_proc : MountInfoParser → String → List String → MountInfo → Bool
unfolding is_submount_info holds is_mountpoint_under
listed_under_proc mi mountpoint listed info =
    is_submount_info mi info
    && holds
        (λ base.
          base.fs_type == "proc"
          && is_mountpoint_under (trim_prefix mountpoint base.mount_point) listed)
        (get_parent_mount mi info)

unfoldable pub is_sysboxfs_ro_submount : MountInfoParser → String → Bool
unfolding holds listed_under_proc
is_sysboxfs_ro_submount mi mountpoint =
    holds (listed_under_proc mi mountpoint mi.paths.proc_ro_paths) (get_info mi mountpoint)

unfoldable pub is_sysboxfs_masked_submount : MountInfoParser → String → Bool
unfolding holds listed_under_proc
is_sysboxfs_masked_submount mi mountpoint =
    holds (listed_under_proc mi mountpoint mi.paths.proc_mask_paths) (get_info mi mountpoint)

-- The loop of GetSysboxfsSubMounts over the map of mountpoints.
unfoldable pub submounts_loop : MountInfoParser → MountInfo → Map String ℕ → List String
unfolding is_sysboxfs_submount_of holds
submounts_loop mi base [] = []
submounts_loop mi base ((mp, r) ∷ m) =
    let rest = submounts_loop mi base m in
    if holds (λ info. is_sysboxfs_submount_of mi info base) (get_elem? mi.heap r)
    then mp ∷ rest
    else rest

-- A missing base entry is dereferenced as soon as the map has an entry.
unfoldable pub submounts_under : MountInfoParser → Option MountInfo → Option (List String)
unfolding submounts_loop
submounts_under mi (some base) = some (submounts_loop mi base mi.mp_info)
submounts_under mi none = elim mi.mp_info [ [] ↦ some [] | entry ∷ m ↦ none ]

unfoldable pub get_sysboxfs_submounts : MountInfoParser → String → Option (List String)
unfolding submounts_under
get_sysboxfs_submounts mi basemount = submounts_under mi (get_info mi basemount)

-- The loop of HasNonSysboxfsSubmount.
non_submount_loop : MountInfoParser → MountInfo → Map String ℕ → Bool
unfolding is_sysboxfs_submount_of holds
non_submount_loop mi base [] = false
non_submount_loop mi base ((mp, r) ∷ m) =
    holds (λ info. info.parent_id == base.mount_id && not (is_sysboxfs_submount_of mi info base))
      (get_elem? mi.heap r)
    || non_submount_loop mi base m

unfoldable pub has_non_sysboxfs_submount : MountInfoParser → String → Option Bool
unfolding non_submount_loop
has_non_sysboxfs_submount mi basemount = elim (get_info mi basemount) [
  | none ↦ none
  | some base ↦ some (non_submount_loop mi base mi.mp_info)
]

unfoldable pub is_recursive_bind_mount : MountInfoParser → MountInfo → Bool
is_recursive_bind_mount mi info =
    any
      (λ elem.
        not (elem.mount_id == info.mount_id)
        && elem.mount_id == info.parent_id
        && elem.source == info.source
        && elem.root == info.root)
      (fs_id_slice mi info.major_minor_ver)

unfoldable pub is_self_mount : MountInfoParser → MountInfo → Bool
unfolding holds get_parent_mount
is_self_mount mi info =
    holds
      (λ parent.
        info.root == parent.root
        && info.mount_point == parent.mount_point
        && info.source == parent.source)
      (get_parent_mount mi info)

unfoldable pub is_overlap_mount : MountInfoParser → MountInfo → Bool
unfolding holds get_parent_mount
is_overlap_mount mi info =
    holds (λ parent. info.mount_point == parent.mount_point) (get_parent_mount mi info)

-- The mounts that qualify as the source of a bind mount.
pub bind_source : MountInfo → MountInfo → Bool
bind_source info elem =
    not (elem.mount_id == info.mount_id) && elem.root == info.root && elem.source == info.source

unfoldable pub is_bind_mount : MountInfoParser → MountInfo → Bool
unfolding bind_source fs_id_slice
is_bind_mount mi info = any (bind_source info) (fs_id_slice mi info.major_minor_ver)

-- The first source of the bind mount decides.
unfoldable pub is_ro_bind_mount : MountInfoParser → MountInfo → Bool
unfolding bind_source holds is_ro_mount fs_id_slice
is_ro_bind_mount mi info =
    holds is_ro_mount (find (bind_source info) (fs_id_slice mi info.major_minor_ver))
