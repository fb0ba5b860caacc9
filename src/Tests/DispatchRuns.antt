-- ===== src/Tests/DispatchRuns.antt =====
-- Notifications with arguments in the memory of a process.
use sysbox_fs.Prelude.{
  ℕ, String, ◌≡◌, arith, refl, inr, true, false, none, some, [], ◌∷◌, ok, ◌==◌, nat_eq, string_eq,
  if◌then◌else◌,
}
use sysbox_fs.Prelude.Bytes.{Bytes, bytes_eq}
use sysbox_fs.Prelude.Maps.{lookup}
use sysbox_fs.Process.Path.{path_max}
use sysbox_fs.Seccomp.Context.{create_error_response, eperm}
use sysbox_fs.Seccomp.Memory.{
  Tracee, fill, read_process_mem, go_string, read_syscall_string_args, read_syscall_bytes_args,
  also,
}
use sysbox_fs.Seccomp.Memory.Laws.{IsCString}
use sysbox_fs.Seccomp.Tracer.{ProcessOps, sent, crash, answer}
use sysbox_fs.Seccomp.Tracer.Dispatch.{
  Args, CallContext, process_syscall, handlers, setxattr_notified, openat2_notified, names_at,
  bytes_at, on_first, on_two,
}
use sysbox_fs.Seccomp.Tracer.Dispatch.Laws.{unprivileged_eperm, setxattr-delivered}
use sysbox_fs.Seccomp.Xattr.{process_setxattr}
use sysbox_fs.Tests.Fixtures.{caller, parser_state}
use sysbox_fs.Tests.CallRuns.{chown_ops, xattr_ops, open_ops}

-- A process without capabilities, which may access all paths.
abbrev plain_process : ProcessOps
plain_process = record {
  is_sys_admin = false;
  resolve_proc_self = λ path. some path;
  path_access = λ path. ok path;
}

-- "f" at 100, "t" at 200 and two bytes of a value at 300.
abbrev bytes_of : ℕ → Bytes
bytes_of addr =
    if addr == 100 then 102 ∷ 0 ∷ 9 ∷ [] else if addr == 200 then 116 ∷ 0 ∷ [] else 121 ∷ 122 ∷ []

abbrev text_of : Bytes → String
text_of bs =
    if bs == (102 ∷ [])
    then "/etc/passwd"
    else if bs == (116 ∷ [])
    then "trusted.overlay.opaque"
    else ""

abbrev tracee : Tracee
tracee = record {
  vm_readv = λ addr size. some (bytes_of addr);
  allocates = λ size. true;
  behind = [];
  text = text_of;
}

abbrev no_memory : Tracee
no_memory = record tracee { vm_readv = λ addr size. none }

abbrev calling : Tracee → CallContext
calling memory = record {
  ctx = caller 1;
  tracee = memory;
  process = plain_process;
  parsers = parser_state;
  chown = chown_ops;
  xattr = λ addr. xattr_ops;
  openat2 = open_ops;
}

abbrev args : ℕ → Args
args size = record { arg0 = 100; arg1 = 200; arg2 = 300; arg3 = size; arg4 = 0 }

unprivileged_eperm_example :
    process_syscall true true (calling tracee) (args 0) "umount2"
    ≡ sent (create_error_response 5 (some eperm))
unprivileged_eperm_example = unprivileged_eperm (calling tracee) (args 0) "umount2" refl (inr refl)

abbrev path_there : IsCString tracee 100 path_max (102 ∷ [])
path_there = record {
  behind_zero = 9 ∷ [];
  copied = refl;
  no_zero = refl;
  fits = omega arith;
  no_more = omega arith;
  not_null = omega arith;
}

abbrev name_there : IsCString tracee 200 path_max (116 ∷ [])
name_there = record {
  behind_zero = [];
  copied = refl;
  no_zero = refl;
  fits = omega arith;
  no_more = omega arith;
  not_null = omega arith;
}

setxattr-delivered_example :
    process_syscall true true (calling tracee) (args 2) "lsetxattr"
    ≡ answer
        (caller 1)
        true
        (process_setxattr xattr_ops 5 "lsetxattr" 0 "/etc/passwd" "trusted.overlay.opaque"
          (121 ∷ 122 ∷ [])
          0).0
setxattr-delivered_example =
    setxattr-delivered (calling tracee) (args 2) "lsetxattr" (102 ∷ []) (116 ∷ []) (121 ∷ 122 ∷ [])
      (inr refl) path_there name_there refl refl (omega arith) (omega arith) refl

-- A value of no bytes gets no string, and the program ends at the index 0 of none.
empty_value : process_syscall true true (calling tracee) (args 0) "setxattr" ≡ crash
unfolding process_syscall handlers lookup setxattr_notified names_at bytes_at on_first on_two answer
    read_syscall_string_args read_syscall_bytes_args read_process_mem fill go_string also
empty_value = refl

-- The same for openat2 without a struct open_how.
no_how : process_syscall true true (calling tracee) (args 0) "openat2" ≡ crash
unfolding process_syscall handlers lookup answer openat2_notified read_syscall_string_args
    read_syscall_bytes_args
no_how = refl
