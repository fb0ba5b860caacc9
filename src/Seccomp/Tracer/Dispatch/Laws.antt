-- ===== src/Seccomp/Tracer/Dispatch/Laws.antt =====
-- What a notification is answered with, whatever its handler is: a process that may not mount, a
-- memory that cannot be read, an empty value.
use sysbox_fs.Prelude.{
  ◌<◌, String, ◌≡◌, refl, ap, ◌⊎◌, inl, inr, true, false, some, [], ◌∷◌, if◌then◌else◌, map, ◌==◌,
  nat_eq, string_eq, arith, length,
}
use sysbox_fs.Prelude.Maps.{lookup}
use sysbox_fs.Prelude.Bytes.{Bytes}
use sysbox_fs.Process.Path.{path_max}
use sysbox_fs.Seccomp.Context.{crashed, create_error_response, eperm}
use sysbox_fs.Seccomp.Memory.{also, read_syscall_string_args, read_syscall_bytes_args}
use sysbox_fs.Seccomp.Memory.Laws.{IsCString, string-read, bytes-read}
use sysbox_fs.Seccomp.Xattr.{process_setxattr}
use sysbox_fs.Seccomp.Tracer.{reject, process_mount, process_umount2, answer, sent}
use sysbox_fs.Seccomp.Tracer.Dispatch.{
  Args, CallContext, on_first, on_two, names_at, bytes_at, mount_notified, umount_notified,
  setxattr_notified, handlers, process_syscall, monitored_syscalls,
}

mount_notified-plain :
    (c : CallContext) (a : Args)
    → c.process.is_sys_admin ≡ false
    → mount_notified c a ≡ reject c.ctx (some eperm)
unfolding mount_notified read_syscall_string_args also process_mount
mount_notified-plain c a plain = ground arith

umount_notified-plain :
    (c : CallContext) (a : Args)
    → c.process.is_sys_admin ≡ false
    → umount_notified c a ≡ reject c.ctx (some eperm)
unfolding umount_notified read_syscall_string_args also process_umount2
umount_notified-plain c a plain = ground arith

-- A process without CAP_SYS_ADMIN gets EPERM for each mount and umount2 of a known container whose
-- notification is still valid, whatever its arguments are and whether they can be read.
pub unprivileged_eperm :
    (c : CallContext) (a : Args) (name : String)
    → c.process.is_sys_admin ≡ false
    → (name ≡ "mount") ⊎ (name ≡ "umount2")
    → process_syscall true true c a name ≡ sent (create_error_response c.ctx.req_id (some eperm))
unfolding process_syscall handlers lookup answer reject
unprivileged_eperm c a name plain (inl called) =
    rw called (ap (answer c.ctx true) (mount_notified-plain c a plain))
unprivileged_eperm c a name plain (inr called) =
    rw called (ap (answer c.ctx true) (umount_notified-plain c a plain))

-- The calls whose first string stands at the first, or at the second argument.
pub data ReadsMemory : String → Type 0 where
  openat2 : ReadsMemory "openat2"
  mount : ReadsMemory "mount"
  umount2 : ReadsMemory "umount2"
  chown : ReadsMemory "chown"
  fchownat : ReadsMemory "fchownat"
  setxattr : ReadsMemory "setxattr"
  lsetxattr : ReadsMemory "lsetxattr"
  fsetxattr : ReadsMemory "fsetxattr"
  getxattr : ReadsMemory "getxattr"
  lgetxattr : ReadsMemory "lgetxattr"
  fgetxattr : ReadsMemory "fgetxattr"
  removexattr : ReadsMemory "removexattr"
  lremovexattr : ReadsMemory "lremovexattr"
  fremovexattr : ReadsMemory "fremovexattr"
  listxattr : ReadsMemory "listxattr"
  llistxattr : ReadsMemory "llistxattr"

setxattr_notified-delivered :
    (c : CallContext) (a : Args) (call : String) (path name val : Bytes)
    → IsCString c.tracee a.arg0 path_max path
    → IsCString c.tracee a.arg1 path_max name
    → c.tracee.vm_readv a.arg2 a.arg3 ≡ some val
    → length val ≡ a.arg3
    → 0 < a.arg2
    → a.arg3 < 2147483648
    → c.tracee.allocates a.arg3 ≡ true
    → setxattr_notified c a call ≡ (
        if a.arg3 == 0
        then crashed
        else (process_setxattr
            (c.xattr 0)
            c.ctx.req_id
            call
            0
            (c.tracee.text path)
            (c.tracee.text name)
            val
            a.arg4).0)
unfolding setxattr_notified names_at bytes_at on_first on_two also read_syscall_string_args
    read_syscall_bytes_args
setxattr_notified-delivered c a call path name val p n h l at lt al = ground (
  arith,
  string-read c.tracee a.arg0 path_max ((a.arg1, path_max) ∷ []) path p,
  string-read c.tracee a.arg1 path_max [] name n,
  bytes-read c.tracee a.arg2 a.arg3 val h l at,
)

-- A setxattr or lsetxattr with a path and a name that are C strings of less than 4096 bytes in the
-- memory of the process, and a value at an address that is not null, which can be read whole, is
-- shorter than 2 GiB and gets a buffer, is answered as the handler answers it for this path, name and
-- value, unless the value is empty: then the program ends.
pub setxattr-delivered :
    (c : CallContext) (a : Args) (call : String) (path name val : Bytes)
    → (call ≡ "setxattr") ⊎ (call ≡ "lsetxattr")
    → IsCString c.tracee a.arg0 path_max path
    → IsCString c.tracee a.arg1 path_max name
    → c.tracee.vm_readv a.arg2 a.arg3 ≡ some val
    → length val ≡ a.arg3
    → 0 < a.arg2
    → a.arg3 < 2147483648
    → c.tracee.allocates a.arg3 ≡ true
    → process_syscall true true c a call
      ≡ answer c.ctx true (
          if a.arg3 == 0
          then crashed
          else (process_setxattr
              (c.xattr 0)
              c.ctx.req_id
              call
              0
              (c.tracee.text path)
              (c.tracee.text name)
              val
              a.arg4).0)
unfolding process_syscall handlers lookup
setxattr-delivered c a call path name val (inl called) p n h l at lt al = rw called (
    ap (answer c.ctx true)
      (setxattr_notified-delivered c a "setxattr" path name val p n h l at lt al))
setxattr-delivered c a call path name val (inr called) p n h l at lt al = rw called (
    ap (answer c.ctx true)
      (setxattr_notified-delivered c a "lsetxattr" path name val p n h l at lt al))

-- The calls with a handler are the monitored ones, in the same order.
pub handlers-monitored :
    (c : CallContext) (a : Args) → map (λ h. h.0) (handlers c a) ≡ monitored_syscalls
unfolding handlers
handlers-monitored c a = refl
