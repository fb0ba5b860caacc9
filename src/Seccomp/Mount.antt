-- ===== src/Seccomp/Mount.antt =====
-- The mount handler (seccomp/mount.go), but for remountAllowed, and the chown event of
-- seccomp/chown.go that it sends.
pub mod Flags
pub mod Laws
use sysbox_fs.Prelude.{
  ℕ, String, Bool, true, false, ◌&&◌, ◌||◌, not, Option, none, some, List, [], ◌∷◌, ◌++◌, ◌==◌,
  string_eq, map, keep, if◌then◌else◌,
}
use sysbox_fs.Prelude.Maps.{has_key}
use sysbox_fs.Text.{join, trim_prefix}
use sysbox_fs.Mount.Flags.{
  has_flag, set_flag, clear_flag, union_flags, string_to_flags, filter_fs_flags, is_new_mount,
  is_move, has_propagation_flag, is_remount, is_bind, ms_rdonly, ms_nosuid, ms_nodev, ms_noexec,
  ms_remount, ms_bind, ms_rec,
}
use sysbox_fs.Mount.Info.{MountInfo, MountInfoParser, get_info}
use sysbox_fs.Mount.Query.{
  is_sysboxfs_base_mount, is_sysboxfs_submount, is_sysboxfs_masked_submount,
  is_sysboxfs_ro_submount, get_sysboxfs_submounts,
}
use sysbox_fs.Mount.Clone.{Parsers}
use sysbox_fs.Seccomp.Context.{
  SysResponse, SyscallCtx, Verdict, allowed, denied, Outcome, respond, failed, crashed, Reply,
  send_failed, error_reply, response, Event, MountPayload, mounts, chown_target, mount_syscall,
  chown_syscall, all_nss, all_nss_but_user, after_event, create_error_response,
  create_success_response, create_continue_response, target_adjust, target_unadjust,
}
use sysbox_fs.Seccomp.Remount.{remount_allowed}

-- A bind mount of `v`, a path under `prefix`, at the same place under the target.
unfoldable pub bind_element : String → String → String → MountPayload
unfolding join trim_prefix
bind_element prefix target v = record {
  header = none;
  source = v;
  target = join target (trim_prefix v prefix);
  fs_type = "";
  flags = ms_bind;
  mount_data = "";
}

-- The remount of such a bind mount as read-only: the five flags and MS_RDONLY, without a source.
unfoldable pub ro_element : String → String → String → MountPayload
unfolding join trim_prefix
ro_element prefix target v = record {
  header = none;
  source = "";
  target = join target (trim_prefix v prefix);
  fs_type = "";
  flags = 0x102F;
  mount_data = "";
}

-- The request itself; it turns read-only with the file system at `base`. The handler's own request is
-- the same object, so it turns too.
pub inherit_ro : Option MountInfo → MountPayload → MountPayload
unfolding has_key set_flag
inherit_ro none request = request
inherit_ro (some info) request =
    if has_key "ro" info.vfs_options
    then record request { flags = set_flag ms_rdonly request.flags }
    else request

unfoldable pub inherited : MountInfoParser → String → MountPayload → MountPayload
unfolding inherit_ro
inherited mi base request = inherit_ro (get_info mi base) request

-- createProcPayload, after the change of the request.
unfoldable pub create_proc_payload : SyscallCtx → MountInfoParser → MountPayload → List MountPayload
create_proc_payload ctx mi request =
    let binds = bind_element "/proc" request.target in
    request
    ∷ (map binds mi.paths.proc_mounts
        ++ (map binds (keep ctx.file_exists mi.paths.proc_ro_paths)
            ++ (map binds (keep ctx.file_exists mi.paths.proc_mask_paths)
                ++ (if has_flag ms_rdonly request.flags
                    then map (ro_element "/proc" request.target) mi.paths.proc_mounts
                    else []))))

-- createSysPayload, after the change of the request.
unfoldable pub create_sys_payload : MountInfoParser → MountPayload → List MountPayload
create_sys_payload mi request =
    request
    ∷ (map (bind_element "/sys" request.target) mi.paths.sys_mounts
        ++ (if has_flag ms_rdonly request.flags
            then map (ro_element "/sys" request.target) mi.paths.sys_mounts
            else []))

unfoldable pub mount_event : SyscallCtx → List MountPayload → Event
mount_event ctx payload = record {
  msg_type = mount_syscall;
  pid = ctx.pid;
  uid = ctx.uid;
  gid = ctx.gid;
  namespaces = all_nss;
  payload = mounts payload;
}

-- processChownNSenter, as processProcMount calls it: the agent enters as root of the host.
unfoldable pub chown_event : SyscallCtx → String → Event
chown_event ctx target = record {
  msg_type = chown_syscall;
  pid = ctx.pid;
  uid = 0;
  gid = 0;
  namespaces = all_nss_but_user;
  payload = chown_target target ctx.uid ctx.gid;
}

unfoldable pub after_proc_mount : SyscallCtx → MountPayload → Reply → Outcome
after_proc_mount ctx request send_failed = failed
after_proc_mount ctx request (error_reply code) =
    respond (create_error_response ctx.req_id (some code))
after_proc_mount ctx request response =
    if has_flag ms_rdonly request.flags
    then respond (create_success_response ctx.req_id)
    else after_event ctx (chown_event ctx request.target)

unfoldable pub process_proc_mount : SyscallCtx → MountInfoParser → MountPayload → Outcome
process_proc_mount ctx mi request =
    let request' = inherited mi "/proc" request in
    after_proc_mount ctx request'
      (ctx.nsenter (mount_event ctx (create_proc_payload ctx mi request')))

unfoldable pub process_sys_mount : SyscallCtx → MountInfoParser → MountPayload → Outcome
process_sys_mount ctx mi request =
    after_event ctx (mount_event ctx (create_sys_payload mi (inherited mi "/sys" request)))

-- The target goes back to what the process named, since the agent changes root by itself.
unfoldable pub create_overlay_payload : SyscallCtx → MountPayload → List MountPayload
create_overlay_payload ctx request =
    record request {
      header = some (ctx.root, ctx.cwd, ctx.eff_caps.0, ctx.eff_caps.1);
      target = target_unadjust ctx.root request.target;
    }
    ∷ []

unfoldable pub process_overlay_mount : SyscallCtx → MountPayload → Outcome
process_overlay_mount ctx request =
    after_event ctx (record (mount_event ctx (create_overlay_payload ctx request)) {
      namespaces = all_nss_but_user;
    })

-- The event that enters as true root, for nfs mounts and for remounts.
unfoldable pub root_event : SyscallCtx → List MountPayload → Event
unfolding mount_event
root_event ctx payload = record (mount_event ctx payload) {
  uid = 0;
  gid = 0;
  namespaces = all_nss_but_user;
}

unfoldable pub process_nfs_mount : SyscallCtx → MountPayload → Outcome
process_nfs_mount ctx request = after_event ctx (root_event ctx (request ∷ []))

-- The flags of the remount of one submount.
unfoldable pub remount_flags : MountInfoParser → ℕ → String → MountInfo → ℕ
remount_flags mi flags subm info =
    let now = union_flags (string_to_flags info.options) (string_to_flags info.vfs_options) in
    let subm_flags = set_flag ms_bind (set_flag ms_remount now) in
    if has_flag ms_rdonly flags
    then set_flag ms_rdonly subm_flags
    else if not (is_sysboxfs_ro_submount mi subm)
    then clear_flag ms_rdonly subm_flags
    else subm_flags

unfoldable pub remount_element : MountInfoParser → ℕ → String → MountInfo → MountPayload
remount_element mi flags subm info = record {
  header = none;
  source = "";
  target = subm;
  fs_type = "";
  flags = remount_flags mi flags subm info;
  mount_data = filter_fs_flags info.vfs_options;
}

-- `none` where a submount has no entry, which would be a nil dereference.
unfoldable pub remount_elements : MountInfoParser → ℕ → List String → Option (List MountPayload)
remount_elements mi flags [] = some []
remount_elements mi flags (subm ∷ subms) =
    let rest = remount_elements mi flags subms in
    elim (get_info mi subm) [
      | none ↦ none
      | some info ↦ elim rest [
        | none ↦ none
        | some es ↦ some (remount_element mi flags subm info ∷ es)
      ]
    ]

unfoldable pub append_request :
    MountPayload → Option (List MountPayload) → Option (List MountPayload)
append_request request none = none
append_request request (some es) = some (es ++ request ∷ [])

unfoldable pub remount_all : MountInfoParser → ℕ → Option (List String) → Option (List MountPayload)
remount_all mi flags none = none
remount_all mi flags (some subms) = remount_elements mi flags subms

unfoldable pub create_remount_payload : MountInfoParser → MountPayload → Option (List MountPayload)
unfolding append_request remount_all
create_remount_payload mi request =
    if is_sysboxfs_base_mount mi request.target
    then append_request request
        (remount_all mi request.flags (get_sysboxfs_submounts mi request.target))
    else remount_elements mi request.flags (request.target ∷ [])

unfoldable pub process_remount : SyscallCtx → MountInfoParser → MountPayload → Outcome
process_remount ctx mi request = elim (create_remount_payload mi request) [
  | none ↦ crashed
  | some payload ↦ after_event ctx (root_event ctx payload)
]

rebind_element : MountPayload → String → MountPayload
unfolding join trim_prefix
rebind_element request subm = record {
  header = none;
  source = subm;
  target = join request.target (trim_prefix subm request.source);
  fs_type = "";
  flags = request.flags;
  mount_data = "";
}

unfoldable pub rebind_all : MountPayload → Option (List String) → Option (List MountPayload)
unfolding rebind_element
rebind_all request none = none
rebind_all request (some subms) = some (request ∷ map (rebind_element request) subms)

unfoldable pub create_bind_mount_payload :
    MountInfoParser → MountPayload → Option (List MountPayload)
unfolding rebind_all
create_bind_mount_payload mi request =
    if has_flag ms_rec request.flags
    then some (request ∷ [])
    else rebind_all request (get_sysboxfs_submounts mi request.source)

unfoldable pub process_bind_mount : SyscallCtx → MountInfoParser → MountPayload → Outcome
process_bind_mount ctx mi request = elim (create_bind_mount_payload mi request) [
  | none ↦ crashed
  | some payload ↦ after_event ctx (mount_event ctx payload)
]

unfoldable pub proceed : SyscallCtx → Outcome
proceed ctx = respond (create_continue_response ctx.req_id)

unfoldable pub mount_bind : SyscallCtx → MountInfoParser → MountPayload → Outcome
mount_bind ctx mi request =
    if request.source == request.target && is_sysboxfs_submount mi request.target
    then respond (create_success_response ctx.req_id)
    else if request.source == "/dev/null" && is_sysboxfs_masked_submount mi request.target
    then respond (create_success_response ctx.req_id)
    else if not (request.source == request.target) && is_sysboxfs_base_mount mi request.source
    then process_bind_mount ctx mi request
    else proceed ctx

unfoldable pub after_remount : SyscallCtx → MountPayload → Verdict × Parsers → Outcome × Parsers
after_remount ctx request (denied resp, ps) = (respond resp, ps)
after_remount ctx request (allowed, ps) =
    if is_sysboxfs_base_mount ps.process request.target
      || is_sysboxfs_submount ps.process request.target
    then (process_remount ctx ps.process request, ps)
    else (proceed ctx, ps)

unfoldable pub mount_remount : SyscallCtx → Parsers → MountPayload → Outcome × Parsers
unfolding after_remount
mount_remount ctx ps request = after_remount ctx request (remount_allowed ctx ps request)

-- Everything but the creation of a mount that sysbox-fs manages.
unfoldable pub mount_change : SyscallCtx → Parsers → MountPayload → Outcome × Parsers
mount_change ctx ps request =
    if is_move request.flags
    then (proceed ctx, ps)
    else if has_propagation_flag request.flags
    then (proceed ctx, ps)
    else if is_remount request.flags
    then mount_remount ctx ps request
    else if is_bind request.flags
    then (mount_bind ctx ps.process request, ps)
    else (proceed ctx, ps)

-- `process`, on the adjusted target and with the parsers at hand.
unfoldable pub mount_target : SyscallCtx → Parsers → MountPayload → Outcome × Parsers
mount_target ctx ps request =
    if is_new_mount request.flags
    then (if request.fs_type == "proc"
        then (process_proc_mount ctx ps.process request, ps)
        else if request.fs_type == "sysfs"
        then (process_sys_mount ctx ps.process request, ps)
        else if request.fs_type == "overlay"
        then (process_overlay_mount ctx request, ps)
        else if request.fs_type == "nfs"
        then (process_nfs_mount ctx request, ps)
        else mount_change ctx ps request)
    else mount_change ctx ps request

-- Whether the handler builds a mountinfo parser of the process.
unfoldable pub needs_parser : ℕ → Bool
needs_parser flags =
    is_new_mount flags
    || (not (is_move flags)
        && not (has_propagation_flag flags)
        && (is_remount flags || is_bind flags))

-- `process`: the container's parser must be there or be made; `none` is a parser that failed.
unfoldable pub mount_process :
    SyscallCtx
    → Option MountInfoParser
    → Option MountInfoParser
    → Option MountInfoParser
    → MountPayload
    → Outcome × Option MountInfoParser
mount_process ctx container_info new_container_info process_info request =
    let start : Option MountInfoParser = elim container_info [
      | none ↦ new_container_info
      | some mi ↦ some mi
    ] in
    let request' = record request { target = target_adjust ctx.root request.target } in
    elim start [
      | none ↦ (failed, none)
      | some cmi ↦ elim process_info [
        | none ↦ (if needs_parser request.flags then failed else proceed ctx, some cmi)
        | some pmi ↦
            let (out, ps) = mount_target ctx (record { container = cmi; process = pmi }) request' in
            (out, some ps.container)
      ]
    ]
