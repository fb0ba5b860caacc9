-- ===== src/Seccomp/Tracer.antt =====
-- The notifications of mount and umount2 (processMount, processUmount and the end of processSyscall
-- of seccomp/tracer.go). What procfs says of the process is a parameter.
pub mod Dispatch
pub mod Laws
pub mod Targets
use sysbox_fs.Prelude.{
  ℕ, String, Bool, true, false, not, Option, none, some, ◌==◌, nat_eq, Result, ok, err,
  if◌then◌else◌,
}
use sysbox_fs.Text.{is_abs, join}
use sysbox_fs.Mount.Info.{MountInfoParser}
use sysbox_fs.Seccomp.Context.{
  SysResponse, SyscallCtx, MountPayload, Outcome, respond, failed, crashed, create_error_response,
  create_continue_response, eperm, enoent, eacces, einval,
}
use sysbox_fs.Seccomp.Umount.{umount_process}
use sysbox_fs.Seccomp.Mount.{mount_process}

-- The calling process, as package process presents it. An error of PathAccess is an errno, or `none`
-- for another error.
pub record ProcessOps : Type 0 where
  pub is_sys_admin : Bool
  pub resolve_proc_self : String → Option String
  pub path_access : String → Result (Option ℕ) String

-- The mountinfo parsers: the container's, if it is there; the one that would be made for it; and the
-- one of the process. `none` is a parser that failed.
pub record ParserState : Type 0 where
  pub container_info : Option MountInfoParser
  pub new_container_info : Option MountInfoParser
  pub process_info : Option MountInfoParser

-- A relative target starts at the process' working directory.
unfoldable pub absolute_target : SyscallCtx → String → String
absolute_target ctx target = if is_abs target then target else join ctx.cwd target

unfoldable pub call_mount : SyscallCtx → ParserState → MountPayload → Outcome
call_mount ctx st request =
    (mount_process ctx st.container_info st.new_container_info st.process_info request).0

unfoldable pub call_umount : SyscallCtx → ParserState → MountPayload → Outcome
call_umount ctx st request =
    (umount_process ctx st.container_info st.new_container_info st.process_info request).0

unfoldable pub reject : SyscallCtx → Option ℕ → Outcome
reject ctx e = respond (create_error_response ctx.req_id e)

-- From PathAccess on.
unfoldable pub mount_at :
    SyscallCtx → ParserState → MountPayload → Result (Option ℕ) String → Outcome
mount_at ctx st request (err e) = reject ctx e
mount_at ctx st request (ok target) =
    call_mount ctx st (record request { target = absolute_target ctx target })

unfoldable pub process_mount : SyscallCtx → ProcessOps → ParserState → Option MountPayload → Outcome
process_mount ctx ops st none = reject ctx (some eperm)
process_mount ctx ops st (some request) =
    if not ops.is_sys_admin
    then reject ctx (some eperm)
    else elim (ops.resolve_proc_self request.source) [
      | none ↦ reject ctx (some eacces)
      | some source ↦ elim (ops.resolve_proc_self request.target) [
        | none ↦ reject ctx (some eacces)
        | some target ↦
            mount_at ctx st (record request { source = source }) (ops.path_access target)
      ]
    ]

is_enoent : Option ℕ → Bool
is_enoent none = false
is_enoent (some e) = e == enoent

-- A path that is not found is left to the kernel.
unfoldable pub umount_at :
    SyscallCtx → ParserState → MountPayload → Result (Option ℕ) String → Outcome
unfolding is_enoent
umount_at ctx st request (err e) =
    if is_enoent e then respond (create_continue_response ctx.req_id) else reject ctx e
umount_at ctx st request (ok target) =
    call_umount ctx st (record request { target = absolute_target ctx target })

unfoldable pub process_umount2 :
    SyscallCtx → ProcessOps → ParserState → Option MountPayload → Outcome
process_umount2 ctx ops st none = reject ctx (some eperm)
process_umount2 ctx ops st (some request) =
    if not ops.is_sys_admin
    then reject ctx (some eperm)
    else elim (ops.resolve_proc_self request.target) [
      | none ↦ reject ctx (some eacces)
      | some target ↦ umount_at ctx st request (ops.path_access target)
    ]

-- What becomes of a notification: a response is sent, nothing is, or the program ends.
pub data Answer : Type 0 where
  sent : SysResponse → Answer
  silent crash : Answer

-- The end of processSyscall: a Go error is answered with EINVAL; a response is sent if the
-- notification is still valid.
unfoldable pub answer : SyscallCtx → Bool → Outcome → Answer
answer ctx still_valid failed = sent (create_error_response ctx.req_id (some einval))
answer ctx still_valid crashed = crash
answer ctx still_valid (respond resp) = if still_valid then sent resp else silent
