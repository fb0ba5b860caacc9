-- ===== src/Seccomp/Remount.antt =====
-- remountAllowed (seccomp/mount.go), with the queries of the container that it makes
-- (state/container.go).
pub mod Laws
use sysbox_fs.Prelude.{
  ℕ, String, Bool, true, false, ◌&&◌, ◌||◌, not, Option, none, some, ◌==◌, nat_eq, string_eq,
  get_elem?, Result, ok, err, if◌then◌else◌,
}
use sysbox_fs.Prelude.Maps.{lookup}
use sysbox_fs.Prelude.Int.{ℤ}
use sysbox_fs.Mount.Flags.{is_read_only_mount}
use sysbox_fs.Mount.Info.{MountInfo, MountInfoParser, lookup_by_mount_id, lookup_by_mountpoint}
use sysbox_fs.Mount.Query.{is_overlap_mount, is_ro_mount, is_ro_bind_mount}
use sysbox_fs.Mount.Clone.{InodeError, Parsers, Loc, in_process, is_clone_mount, extract_inode}
use sysbox_fs.Seccomp.Context.{SyscallCtx, Verdict, allowed, deny, eperm, einval, MountPayload}
use sysbox_fs.Seccomp.Umount.{is_immutable_overlap_mountpoint, on_query, reject_immutable, let_go}

ro_entry : Option MountInfo → Bool
unfolding is_ro_mount
ro_entry none = false
ro_entry (some info) = is_ro_mount info

-- The methods of the container (state/container.go).
unfoldable pub is_immutable_ro_mount_id : Parsers → ℤ → Bool
unfolding ro_entry lookup_by_mount_id
is_immutable_ro_mount_id ps id = ro_entry (lookup_by_mount_id ps.container id)

unfoldable pub is_immutable_ro_mountpoint : Parsers → String → Bool
unfolding ro_entry lookup_by_mountpoint
is_immutable_ro_mountpoint ps mp = ro_entry (lookup_by_mountpoint ps.container mp)

unfoldable pub is_immutable_ro_bind_mount : Parsers → MountInfo → Bool
unfolding is_ro_bind_mount
is_immutable_ro_bind_mount ps info = is_ro_bind_mount ps.container info

-- Scenarios 1 to 4.
unfoldable pub remount_same_ns : SyscallCtx → Parsers → MountInfo → Verdict × Parsers
remount_same_ns ctx ps info =
    if is_immutable_ro_mount_id ps info.mount_id || is_immutable_ro_bind_mount ps info
    then reject_immutable ctx ps
    else (allowed, ps)

-- Scenarios 5 and 7.
unfoldable pub remount_unshared : SyscallCtx → Parsers → MountInfo → Verdict
remount_unshared ctx ps info =
    if is_overlap_mount ps.process info
    then (if is_immutable_overlap_mountpoint ps info.mount_point then deny ctx eperm else allowed)
    else if is_immutable_ro_mountpoint ps info.mount_point
    then deny ctx eperm
    else if is_immutable_ro_bind_mount ps info
    then deny ctx eperm
    else allowed

unfoldable pub unless_ro_bind : SyscallCtx → MountInfo → Parsers → Verdict × Parsers
unless_ro_bind ctx info ps =
    if is_immutable_ro_bind_mount ps info then (deny ctx eperm, ps) else let_go ps

-- Scenarios 6 and 8.
unfoldable pub remount_pivoted : SyscallCtx → Parsers → Loc → MountInfo → Verdict × Parsers
unfolding on_query unless_ro_bind
remount_pivoted ctx ps m info =
    on_query ctx (is_clone_mount ctx.depth ctx.inodes true ps m) (deny ctx eperm)
      (unless_ro_bind ctx info)

unfoldable pub remount_other_ns : SyscallCtx → Parsers → Loc → MountInfo → Verdict × Parsers
remount_other_ns ctx ps m info =
    if ctx.process_info.root == "/"
    then (if ctx.process_info.root_inode == ctx.init_proc.root_inode
        then (remount_unshared ctx ps info, ps)
        else remount_pivoted ctx ps m info)
    else (let (r, mi) = extract_inode ctx.inodes ps.process "/" in
        let ps' = record ps { process = mi } in
        elim r [
          | err e ↦ (deny ctx einval, ps')
          | ok i ↦
              if i == ctx.init_proc.root_inode
              then (remount_unshared ctx ps' info, ps')
              else remount_pivoted ctx ps' m info
        ])

-- A read-only target that is to become writable.
unfoldable pub remount_known : SyscallCtx → Parsers → ℕ → MountInfo → Verdict × Parsers
remount_known ctx ps r info = elim ctx.process_info.mount_ns [
  | none ↦ (deny ctx einval, ps)
  | some process_ns ↦ elim ctx.init_proc.mount_ns [
    | none ↦ (deny ctx einval, ps)
    | some init_ns ↦
        if process_ns == init_ns
        then remount_same_ns ctx ps info
        else remount_other_ns ctx ps (in_process, r) info
  ]
]

unfoldable pub remount_allowed : SyscallCtx → Parsers → MountPayload → Verdict × Parsers
remount_allowed ctx ps request =
    if ctx.allow_immutable_remounts
    then (allowed, ps)
    else if request.fs_type == "proc" || request.fs_type == "sysfs"
    then (allowed, ps)
    else if is_read_only_mount request.flags
    then (allowed, ps)
    else elim (lookup request.target ps.process.mp_info) [
      | none ↦ (deny ctx einval, ps)
      | some r ↦ elim (get_elem? ps.process.heap r) [
        | none ↦ (deny ctx einval, ps)
        | some info ↦ if not (is_ro_mount info) then (allowed, ps) else remount_known ctx ps r info
      ]
    ]
