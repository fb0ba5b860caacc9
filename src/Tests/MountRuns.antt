-- ===== src/Tests/MountRuns.antt =====
-- The mount tables at work.
use sysbox_fs.Prelude.{ℕ, String, ◌≡◌, refl, true, false, List, [], ◌∷◌, ok, string_eq}
use sysbox_fs.Mount.Info.{
  MountInfo, MountInfoParser, new_parser, get_info, lookup_by_mount_id, fs_id_slice, add_mount,
  get_parent_mount,
}
use sysbox_fs.Mount.Info.Indexed.{IsIndexed, IsIndexed-new, add_mount-IsIndexed}
use sysbox_fs.Mount.Query.{is_submount_info, is_base_info}
use sysbox_fs.Mount.Query.Laws.{stacked_on_proc}
use sysbox_fs.Mount.Parse.{parse_data, parse_components}
use sysbox_fs.Mount.Parse.Laws.{parse_all, parse_data-new}
use sysbox_fs.Mount.Info.Indexed.{at_mountpoint, with_id, on_fs}
use sysbox_fs.Prelude.{last_match, keep}
use sysbox_fs.Prelude.Int.{ℤ, pos, negsuc}
use sysbox_fs.Mount.Clone.{ancestor_mountpoints}
use sysbox_fs.Mount.Clone.Depth.{IsLine, ancestor_mountpoints-IsLine}
use sysbox_fs.Prelude.{arith, ℕ, suc}
use mathlib.Core.List.{Memᴰ}
use sysbox_fs.Tests.Fixtures.{
  container-IsIndexed, uptime_entry, initial, root_entry, proc_entry, cover_entry, container_mounts,
  covered_mounts, paths,
}

add_mount-IsIndexed_example : IsIndexed (add_mount initial root_entry)
add_mount-IsIndexed_example = add_mount-IsIndexed initial root_entry (IsIndexed-new true paths)

stacked_on_proc_run : is_submount_info covered_mounts cover_entry ≡ true
unfolding get_parent_mount is_base_info add_mount
stacked_on_proc_run =
    stacked_on_proc covered_mounts cover_entry proc_entry "/uptime" ("/sys" ∷ []) refl refl refl
      refl refl refl

-- Two lines of a mountinfo file.
abbrev root_line : String
root_line = "25 1 8:1 / / rw,relatime shared:1 - ext4 /dev/sda1 rw"

abbrev proc_line : String
proc_line = "26 25 0:5 / /proc rw,nosuid - proc proc rw"

abbrev parsed : ℕ → ℕ → String → String → String → String → MountInfo
parsed id parent dev mp fs source = record {
  mount_id = pos id;
  parent_id = pos parent;
  major_minor_ver = dev;
  root = "/";
  mount_point = mp;
  options = [];
  optional_fields = [];
  fs_type = fs;
  source = source;
  vfs_options = [];
  mp_inode = 0;
}

abbrev parsed_lines : List MountInfo
parsed_lines =
    parsed 25 1 "8:1" "/" "ext4" "/dev/sda1" ∷ parsed 26 25 "0:5" "/proc" "proc" "proc" ∷ []

parse_data-new_run :
    (mi : MountInfoParser) × (parse_data (new_parser false paths) (root_line ∷ proc_line ∷ [])
      ≡ ok mi)
    × ((mp : String) → get_info mi mp ≡ last_match (at_mountpoint mp) parsed_lines)
    × ((id : ℤ) → lookup_by_mount_id mi id ≡ last_match (with_id id) parsed_lines)
    × ((v : String) → fs_id_slice mi v ≡ keep (on_fs v) parsed_lines)
unfolding parse_all parse_components
parse_data-new_run = parse_data-new false paths (root_line ∷ proc_line ∷ []) parsed_lines refl

-- The IDs of the mounts of the container grow away from the root.
abbrev id_height : ℤ → ℕ
id_height (pos n) = n
id_height (negsuc n) = 0

ancestor_mountpoints-IsLine_example :
    IsLine container_mounts uptime_entry ("/proc/uptime" ∷ "/proc" ∷ "/" ∷ [])
unfolding ancestor_mountpoints get_parent_mount add_mount
ancestor_mountpoints-IsLine_example =
    ancestor_mountpoints-IsLine container_mounts id_height container-IsIndexed refl uptime_entry
      (suc (id_height uptime_entry.mount_id)) (Memᴰ.tail (Memᴰ.tail (Memᴰ.head refl))) (omega arith)
