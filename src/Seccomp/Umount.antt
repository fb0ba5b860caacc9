-- ===== src/Seccomp/Umount.antt =====
-- The umount handler (seccomp/umount.go), with the queries of the container that it makes
-- (state/container.go).
pub mod Laws
pub mod Payload
use sysbox_fs.Prelude.{
  ℕ, String, Bool, true, false, ◌&&◌, ◌||◌, not, Option, none, some, List, [], ◌∷◌, ◌++◌, ◌==◌,
  nat_eq, string_eq, get_elem?, Result, ok, err, if◌then◌else◌,
}
use sysbox_fs.Prelude.Maps.{lookup}
use sysbox_fs.Prelude.Int.{ℤ, int_eq}
use sysbox_fs.Mount.Flags.{string_to_flags, is_read_only_mount}
use sysbox_fs.Mount.Info.{
  MountInfo, MountInfoParser, get_info, lookup_by_mount_id, lookup_by_mountpoint,
}
use sysbox_fs.Mount.Query.{
  is_overlap_mount, is_sysboxfs_base_mount, is_sysboxfs_submount, has_non_sysboxfs_submount,
  get_sysboxfs_submounts,
}
use sysbox_fs.Mount.Clone.{
  InodeError, Agent, Parsers, Loc, in_container, in_process, is_root_mount, is_clone_mount,
  extract_inode,
}
use sysbox_fs.Seccomp.Context.{
  SysResponse, SyscallCtx, ProcessView, Verdict, allowed, denied, deny, Outcome, respond, failed,
  crashed, Event, MountPayload, umount_syscall, mounts, all_nss, after_event, create_error_response,
  create_continue_response, target_adjust, eperm, einval, ebusy,
}

is_some : Option MountInfo → Bool
is_some none = false
is_some (some info) = true

-- The methods of the container (state/container.go).
unfoldable pub is_immutable_mount_id : Parsers → ℤ → Bool
unfolding is_some lookup_by_mount_id
is_immutable_mount_id ps id = is_some (lookup_by_mount_id ps.container id)

unfoldable pub is_immutable_mountpoint : Parsers → String → Bool
unfolding is_some lookup_by_mountpoint
is_immutable_mountpoint ps mp = is_some (lookup_by_mountpoint ps.container mp)

overlap_of : MountInfoParser → Option MountInfo → Bool
unfolding is_overlap_mount
overlap_of mi none = false
overlap_of mi (some info) = is_overlap_mount mi info

unfoldable pub is_immutable_overlap_mountpoint : Parsers → String → Bool
unfolding overlap_of lookup_by_mountpoint
is_immutable_overlap_mountpoint ps mp =
    overlap_of ps.container (lookup_by_mountpoint ps.container mp)

unfoldable pub is_root_mount_id : SyscallCtx → Parsers → ℤ → Result InodeError Bool × Parsers
unfolding is_root_mount lookup
is_root_mount_id ctx ps id = elim (lookup id ps.container.id_info) [
  | none ↦ (ok false, ps)
  | some r ↦ is_root_mount ctx.depth ctx.inodes ps (in_container, r)
]

-- What a failure, a "yes" and a "no" of a fallible query lead to.
unfoldable pub on_query :
    SyscallCtx
    → Result InodeError Bool × Parsers
    → Verdict
    → (Parsers → Verdict × Parsers)
    → Verdict × Parsers
on_query ctx (err e, ps) yes_verdict otherwise = (deny ctx einval, ps)
on_query ctx (ok true, ps) yes_verdict otherwise = (yes_verdict, ps)
on_query ctx (ok false, ps) yes_verdict otherwise = otherwise ps

-- At debug level the rejection of an immutable mount first reads the inode of a chroot'ed root.
unfoldable pub reject_immutable : SyscallCtx → Parsers → Verdict × Parsers
unfolding extract_inode
reject_immutable ctx ps =
    if ctx.debug_level && not (ctx.process_info.root == "/")
    then (let (r, mi) = extract_inode ctx.inodes ps.process "/" in
        elim r [
          | err e ↦ (deny ctx einval, record ps { process = mi })
          | ok i ↦ (deny ctx eperm, record ps { process = mi })
        ])
    else (deny ctx eperm, ps)

abbrev pub let_go : Parsers → Verdict × Parsers
let_go ps = (allowed, ps)

-- An immutable mount is refused, any other let go.
unfoldable pub unless_immutable : SyscallCtx → MountInfo → Parsers → Verdict × Parsers
unfolding is_immutable_mount_id reject_immutable
unless_immutable ctx info ps =
    if is_immutable_mount_id ps info.mount_id then reject_immutable ctx ps else let_go ps

-- Scenarios 1 to 4: the process is in the mount namespace of the container's init process.
unfoldable pub umount_same_ns : SyscallCtx → Parsers → MountInfo → Verdict × Parsers
unfolding is_root_mount_id on_query unless_immutable
umount_same_ns ctx ps info =
    on_query ctx (is_root_mount_id ctx ps info.mount_id) allowed (unless_immutable ctx info)

-- Scenarios 5 and 7: another mount namespace, the same root inode.
unfoldable pub umount_unshared : SyscallCtx → Parsers → MountInfo → Verdict
unfolding is_overlap_mount is_immutable_overlap_mountpoint is_immutable_mountpoint
umount_unshared ctx ps info =
    if is_overlap_mount ps.process info
    then (if is_immutable_overlap_mountpoint ps info.mount_point then deny ctx eperm else allowed)
    else if info.mount_point == "/"
    then allowed
    else if is_immutable_mountpoint ps info.mount_point
    then deny ctx eperm
    else allowed

-- A clone of an immutable mount is refused, any other mount let go.
unfoldable pub unless_clone : SyscallCtx → Loc → Parsers → Verdict × Parsers
unfolding on_query is_clone_mount
unless_clone ctx m ps =
    on_query ctx (is_clone_mount ctx.depth ctx.inodes false ps m) (deny ctx eperm) let_go

-- The end of scenarios 6 and 8: the root mount is let go.
unfoldable pub umount_by_clone : SyscallCtx → Parsers → Loc → Verdict × Parsers
unfolding on_query is_root_mount unless_clone
umount_by_clone ctx ps m =
    on_query ctx (is_root_mount ctx.depth ctx.inodes ps m) allowed (unless_clone ctx m)

-- Scenario 6: pivot-root, no chroot.
unfoldable pub umount_pivoted : SyscallCtx → Parsers → Loc → MountInfo → Verdict × Parsers
unfolding umount_by_clone is_overlap_mount
umount_pivoted ctx ps m info =
    if is_overlap_mount ps.process info then (allowed, ps) else umount_by_clone ctx ps m

-- Scenario 8: pivot-root and chroot.
unfoldable pub umount_pivoted_chroot : SyscallCtx → Parsers → Loc → MountInfo → Verdict × Parsers
unfolding umount_by_clone is_overlap_mount unless_clone
umount_pivoted_chroot ctx ps m info =
    if is_overlap_mount ps.process info then unless_clone ctx m ps else umount_by_clone ctx ps m

-- The process is in another mount namespace.
unfoldable pub umount_other_ns : SyscallCtx → Parsers → Loc → MountInfo → Verdict × Parsers
unfolding umount_unshared umount_pivoted umount_pivoted_chroot extract_inode
umount_other_ns ctx ps m info =
    if ctx.process_info.root == "/"
    then (if ctx.process_info.root_inode == ctx.init_proc.root_inode
        then (umount_unshared ctx ps info, ps)
        else umount_pivoted ctx ps m info)
    else (let (r, mi) = extract_inode ctx.inodes ps.process "/" in
        let ps' = record ps { process = mi } in
        elim r [
          | err e ↦ (deny ctx einval, ps')
          | ok i ↦
              if i == ctx.init_proc.root_inode
              then (umount_unshared ctx ps' info, ps')
              else umount_pivoted_chroot ctx ps' m info
        ])

-- umountAllowed, once the target is known to the parser, as the object at `r`.
unfoldable pub umount_known : SyscallCtx → Parsers → ℕ → MountInfo → Verdict × Parsers
unfolding umount_same_ns umount_other_ns
umount_known ctx ps r info = elim ctx.process_info.mount_ns [
  | none ↦ (deny ctx einval, ps)
  | some process_ns ↦ elim ctx.init_proc.mount_ns [
    | none ↦ (deny ctx einval, ps)
    | some init_ns ↦
        if process_ns == init_ns
        then umount_same_ns ctx ps info
        else umount_other_ns ctx ps (in_process, r) info
  ]
]

unfoldable pub umount_allowed : SyscallCtx → Parsers → String → Verdict × Parsers
unfolding umount_known lookup
umount_allowed ctx ps target =
    if ctx.allow_immutable_unmounts
    then (allowed, ps)
    else elim (lookup target ps.process.mp_info) [
      | none ↦ (deny ctx einval, ps)
      | some r ↦ elim (get_elem? ps.process.heap r) [
        | none ↦ (deny ctx einval, ps)
        | some info ↦ umount_known ctx ps r info
      ]
    ]

pub umount_element : ℕ → String → MountPayload
umount_element flags target = record {
  header = none;
  source = "";
  target = target;
  fs_type = "";
  flags = flags;
  mount_data = "";
}

-- `info.MountPoint` of each submount; a missing entry is dereferenced.
unfoldable pub elements : MountInfoParser → ℕ → List String → Option (List MountPayload)
unfolding umount_element get_info
elements mi flags [] = some []
elements mi flags (subm ∷ subms) =
    let rest = elements mi flags subms in
    elim (get_info mi subm) [
      | none ↦ none
      | some info ↦ elim rest [
        | none ↦ none
        | some es ↦ some (umount_element flags info.mount_point ∷ es)
      ]
    ]

-- The submounts, then the base mount itself.
unfoldable pub umount_all :
    MountInfoParser → MountPayload → Option (List String) → Option (List MountPayload)
unfolding elements
umount_all mi request none = none
umount_all mi request (some subms) = elim (elements mi request.flags subms) [
  | none ↦ none
  | some es ↦ some (es ++ request ∷ [])
]

unfoldable pub create_umount_payload : MountInfoParser → MountPayload → Option (List MountPayload)
unfolding elements umount_all is_sysboxfs_base_mount get_sysboxfs_submounts
create_umount_payload mi request =
    if is_sysboxfs_base_mount mi request.target
    then umount_all mi request (get_sysboxfs_submounts mi request.target)
    else elements mi request.flags (request.target ∷ [])

unfoldable pub umount_event : SyscallCtx → List MountPayload → Event
umount_event ctx instructions = record {
  msg_type = umount_syscall;
  pid = ctx.pid;
  uid = ctx.uid;
  gid = ctx.gid;
  namespaces = all_nss;
  payload = mounts instructions;
}

unfoldable pub process_umount : SyscallCtx → MountInfoParser → MountPayload → Outcome
unfolding create_umount_payload
process_umount ctx mi request = elim (create_umount_payload mi request) [
  | none ↦ crashed
  | some payload ↦ after_event ctx (umount_event ctx payload)
]

is_root_proc_or_sys : SyscallCtx → String → Bool
is_root_proc_or_sys ctx target = (target == "/proc" || target == "/sys") && ctx.root == "/"

after_verdict : SyscallCtx → Verdict × Parsers → Outcome × Parsers
unfolding create_continue_response
after_verdict ctx (allowed, ps) = (respond (create_continue_response ctx.req_id), ps)
after_verdict ctx (denied resp, ps) = (respond resp, ps)

-- `process`, on the adjusted target and with the parsers at hand.
unfoldable pub umount_target : SyscallCtx → Parsers → MountPayload → Outcome × Parsers
unfolding is_root_proc_or_sys after_verdict
umount_target ctx ps request =
    let mi = ps.process in
    if is_sysboxfs_base_mount mi request.target
    then (if is_root_proc_or_sys ctx request.target
        then (respond (create_error_response ctx.req_id (some ebusy)), ps)
        else elim (has_non_sysboxfs_submount mi request.target) [
          | none ↦ (crashed, ps)
          | some true ↦ (respond (create_error_response ctx.req_id (some ebusy)), ps)
          | some false ↦ (process_umount ctx mi request, ps)
        ])
    else if is_sysboxfs_submount mi request.target
    then (respond (create_error_response ctx.req_id (some einval)), ps)
    else after_verdict ctx (umount_allowed ctx ps request.target)

-- The container's parser, if it is there or can be made, and the process' own.
unfoldable pub umount_process :
    SyscallCtx
    → Option MountInfoParser
    → Option MountInfoParser
    → Option MountInfoParser
    → MountPayload
    → Outcome × Option MountInfoParser
unfolding umount_target target_adjust
umount_process ctx container_info new_container_info process_info request =
    let start : Option MountInfoParser = elim container_info [
      | none ↦ new_container_info
      | some mi ↦ some mi
    ] in
    elim start [
      | none ↦ (failed, none)
      | some cmi ↦ elim process_info [
        | none ↦ (failed, some cmi)
        | some pmi ↦
            let (out, ps) =
              umount_target ctx (record { container = cmi; process = pmi })
                (record request { target = target_adjust ctx.root request.target }) in
            (out, some ps.container)
      ]
    ]

-- Whether the process and the container's init process are in one mount namespace.
abbrev pub same_namespace : SyscallCtx → Bool
same_namespace ctx = elim ctx.process_info.mount_ns [
  | none ↦ false
  | some process_ns ↦ elim ctx.init_proc.mount_ns [
    | none ↦ false
    | some init_ns ↦ process_ns == init_ns
  ]
]

abbrev inode_is : Result InodeError ℕ → ℕ → Bool
inode_is (err e) inode = false
inode_is (ok i) inode = i == inode

-- Whether the root of the process' mount namespace is the container's root: no pivot-root was done.
abbrev pub same_root : SyscallCtx → Parsers → Bool
same_root ctx ps =
    if ctx.process_info.root == "/"
    then ctx.process_info.root_inode == ctx.init_proc.root_inode
    else inode_is (extract_inode ctx.inodes ps.process "/").0 ctx.init_proc.root_inode

-- The parsers when the decision is taken: in a chroot jail the inode of the root has been stored.
abbrev pub with_root_inode : SyscallCtx → Parsers → Parsers
with_root_inode ctx ps =
    if ctx.process_info.root == "/"
    then ps
    else record ps { process = (extract_inode ctx.inodes ps.process "/").1 }
