-- ===== src/Mount/Query/Laws.antt =====
-- Which mounts count as base mounts and submounts of sysbox-fs.
use sysbox_fs.Prelude.{
  ◌≡◌, ◌≢◌, String, true, none, some, List, ◌∷◌, string_eq, arith, find-any, ==-refl,
}
use sysbox_fs.Text.Laws.{trim_prefix_self, has_suffix-empty}
use sysbox_fs.Prelude.Int.{int_eq}
use sysbox_fs.Mount.Info.{MountInfo, MountInfoParser, get_parent_mount, fs_id_slice}
use sysbox_fs.Mount.Query.{
  is_base_info, is_submount_info, is_sysboxfs_base_mount, is_self_mount, is_overlap_mount,
  is_bind_mount, is_ro_bind_mount, get_sysboxfs_submounts, has_non_sysboxfs_submount, bind_source,
  is_ro_mount, submount_of_parent,
}

-- On a base mount neither list of submounts dereferences nil.
pub submounts_defined :
    (mi : MountInfoParser) (mp : String)
    → is_sysboxfs_base_mount mi mp ≡ true
    → (get_sysboxfs_submounts mi mp ≢ none) × (has_non_sysboxfs_submount mi mp ≢ none)
unfolding is_sysboxfs_base_mount get_sysboxfs_submounts has_non_sysboxfs_submount
submounts_defined mi mp h = ground arith

pub self_is_overlap :
    (mi : MountInfoParser) (info : MountInfo)
    → is_self_mount mi info ≡ true
    → is_overlap_mount mi info ≡ true
unfolding is_self_mount is_overlap_mount
self_is_overlap mi info h = ground arith

pub ro_bind_is_bind :
    (mi : MountInfoParser) (info : MountInfo)
    → is_ro_bind_mount mi info ≡ true
    → is_bind_mount mi info ≡ true
unfolding is_ro_bind_mount is_bind_mount
ro_bind_is_bind mi info h =
    find-any (bind_source info) is_ro_mount (fs_id_slice mi info.major_minor_ver) h

-- A mount stacked on a procfs base mount, at the very mountpoint of its parent, counts as a submount
-- of sysbox-fs whoever made it: no text is left after the prefix, and every path ends in that.
pub stacked_on_proc :
    (mi : MountInfoParser) (info base : MountInfo) (p : String) (ps : List String)
    → get_parent_mount mi info ≡ some base
    → info.parent_id ≡ base.mount_id
    → info.mount_point ≡ base.mount_point
    → is_base_info base ≡ true
    → base.fs_type ≡ "proc"
    → mi.paths.proc_mounts ≡ p ∷ ps
    → is_submount_info mi info ≡ true
unfolding is_submount_info
stacked_on_proc mi info base p ps parent id same is_base fs mounts =
    rw (parent, submount_of_parent)
      (rw is_base (
        rw (id, same, fs, trim_prefix_self, mounts)
          (ground (arith, ==-refl base.mount_id, has_suffix-empty p))))
