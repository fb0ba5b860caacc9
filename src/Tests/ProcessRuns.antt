-- ===== src/Tests/ProcessRuns.antt =====
-- Paths in the small file tree, and the rights of its process.
use sysbox_fs.Prelude.{
  ℕ, ◌+◌, ◌≤◌, String, ◌≡◌, refl, ◌⊎◌, true, false, ◌||◌, none, some, [], ◌∷◌, string_eq, ok, err,
  if◌then◌else◌,
}
use sysbox_fs.Text.{split_on, has_prefix, drop_prefix, trim_prefix, is_abs, join, dir, byte_length}
use sysbox_fs.Process.Perm.{access_granted, covers}
use sysbox_fs.Process.Perm.Laws.{
  Rights, FileRights, access_granted-kernel, kernel_grants, later_class_grants,
}
use sysbox_fs.Process.Path.{path_access, follow, strip, enotdir}
use sysbox_fs.Process.Path.Links.{Chain, EndsAt, follow-Chain}
use sysbox_fs.Process.Path.Way.{Way, path_access-Way}
use sysbox_fs.Process.ProcSelf.{resolve_proc_self, is_proc_self, chase, proc_round}
use sysbox_fs.Process.ProcSelf.Laws.{resolve_proc_self-resolved}
use sysbox_fs.Process.RootIds.{userns_root_uid_gid}
use sysbox_fs.Seccomp.Tracer.{process_umount2, call_umount}
use sysbox_fs.Seccomp.Tracer.Targets.{process_ops, process_path_access, umount2-slash_end}
use sysbox_fs.Tests.Fixtures.{caller, request, parser_state}
use sysbox_fs.Tests.Tree.{directory, plain, files, creds, process}

abbrev passwd : String
passwd = "/etc/passwd"

path_access-Way_example :
    (passwd ≡ "")
    ⊎ ((there : String) × Way files process
          (split_on b'/' "/etc/link")
          (if is_abs "/etc/link" then "/proc/7/root" else "/proc/7/cwd")
          there
        × (passwd ≡ strip process there))
unfolding path_access byte_length split_on join access_granted covers dir has_prefix trim_prefix
path_access-Way_example = path_access-Way files process "/etc/link" passwd refl

follow-Chain_example :
    (k : ℕ) × Chain files process k "/proc/7/root/etc/link" "/proc/7/root/etc/passwd"
    × EndsAt files process "/proc/7/root/etc/passwd" false
    × (k + 40 ≡ 41)
    × (1 ≤ 40)
unfolding follow is_abs join dir
follow-Chain_example =
    follow-Chain files process 40 "/proc/7/root/etc/link" "/proc/7/root/etc/passwd" false false 40
      refl

-- A link to the root in the middle of a path: the link's own kind is taken for that of the root.
link_to_root : path_access files process "/top/etc" ≡ err enotdir
unfolding path_access byte_length split_on join
link_to_root = refl

-- `..` from the working directory leads to the process' root.
relative_parent : path_access files process "../etc" ≡ ok "/etc"
unfolding path_access byte_length split_on has_prefix dir access_granted covers join trim_prefix
relative_parent = refl

umount2-slash_end_example :
    process_umount2
      (caller 1)
      (process_ops files process "7" true)
      parser_state
      (some (request "" "/etc/" "" 0))
    ≡ call_umount
        (caller 1)
        parser_state
        (record (request "" "/etc/" "" 0) { target = join "/" "" })
unfolding is_proc_self has_prefix process_path_access resolve_proc_self is_abs path_access
    byte_length split_on join access_granted covers
umount2-slash_end_example =
    umount2-slash_end (caller 1) files process "7" "/etc" "" parser_state (request "" "/etc/" "" 0)
      refl refl refl

resolve_proc_self-resolved_example : is_proc_self "/etc/passwd" ≡ false
unfolding resolve_proc_self is_abs is_proc_self has_prefix chase proc_round drop_prefix
resolve_proc_self-resolved_example =
    resolve_proc_self-resolved files "7" "/proc/self/fd/3" "/etc/passwd" ("7", "", refl, refl, refl)
      refl

-- rwxr-xr-x.
abbrev directory_rights : FileRights
directory_rights = record {
  of_owner = record { reads = true; writes = true; executes = true };
  of_group = record { reads = true; writes = false; executes = true };
  of_others = record { reads = true; writes = false; executes = true };
}

abbrev searching : Rights
searching = record { reads = false; writes = false; executes = true }

access_granted-kernel_example : access_granted creds directory 1 ≡ (
    kernel_grants creds directory directory_rights searching
    || later_class_grants creds directory directory_rights searching)
access_granted-kernel_example =
    access_granted-kernel creds directory directory_rights searching refl

-- The owner's bits say no, the others' say yes.
owner_through_others : access_granted creds (record plain { owner = 1000; perm = 4 }) 4 ≡ true
unfolding access_granted covers
owner_through_others = refl

-- No mapping of root, and no overflow GID: the UID found is lost, and the GID is 0.
overflow_lost :
    userns_root_uid_gid (some (record { id = 0; parent_id = 5000 } ∷ [])) none none none
    ≡ (65534, 0)
unfolding userns_root_uid_gid
overflow_lost = refl
