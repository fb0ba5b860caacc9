-- ===== src/Seccomp/Tracer/Dispatch.antt =====
-- From a notification to its handler (processSyscall of seccomp/tracer.go and the functions that it
-- calls): the arguments are read from the registers and the memory of the process.
pub mod Laws
use sysbox_fs.Prelude.{
  ℕ, ◌+◌, ◌-◌, ◌*◌, ◌^◌, ◌%◌, String, Bool, not, none, some, List, [], ◌∷◌, length, take, drop, ltb,
  string_eq, if◌then◌else◌,
}
use sysbox_fs.Prelude.Int.{ℤ, pos, negsuc}
use sysbox_fs.Prelude.Maps.{Map, lookup}
use sysbox_fs.Prelude.Bytes.{Bytes}
use sysbox_fs.Mount.Flags.{has_flag}
use sysbox_fs.Process.Path.{path_max}
use sysbox_fs.Seccomp.Context.{
  SyscallCtx, Outcome, respond, crashed, create_success_response, create_continue_response,
  create_error_response, eperm, einval,
}
use sysbox_fs.Seccomp.Memory.{
  Tracee, Reading, read, unreadable, panicked, read_syscall_string_args, read_syscall_bytes_args,
}
use sysbox_fs.Seccomp.Tracer.{
  ProcessOps, ParserState, reject, process_mount, process_umount2, Answer, sent, answer,
}
use sysbox_fs.Seccomp.Chown.{ChownOps, process_chown, process_fchown, process_fchownat}
use sysbox_fs.Seccomp.Xattr.{
  XattrOps, process_setxattr, process_getxattr, process_removexattr, process_listxattr,
}
use sysbox_fs.Seccomp.Openat2.{OpenOps, process_openat2}

abbrev pub monitored_syscalls : List String
monitored_syscalls =
    "openat2" ∷ "mount" ∷ "umount2" ∷ "reboot" ∷ "swapon" ∷ "swapoff" ∷ "chown" ∷ "fchown"
    ∷ "fchownat" ∷ "setxattr" ∷ "lsetxattr" ∷ "fsetxattr" ∷ "getxattr" ∷ "lgetxattr" ∷ "fgetxattr"
    ∷ "removexattr" ∷ "lremovexattr" ∷ "fremovexattr" ∷ "listxattr" ∷ "llistxattr" ∷ "flistxattr"
    ∷ []

-- The registers, 64-bit words.
pub record Args : Type 0 where
  pub arg0 : ℕ
  pub arg1 : ℕ
  pub arg2 : ℕ
  pub arg3 : ℕ
  pub arg4 : ℕ

-- What the handlers see of the process that makes the call; the extended attributes with the address
-- that a value is written to.
pub record CallContext : Type 0 where
  pub ctx : SyscallCtx
  pub tracee : Tracee
  pub process : ProcessOps
  pub parsers : ParserState
  pub chown : ChownOps
  pub xattr : ℕ → XattrOps
  pub openat2 : OpenOps

abbrev pub name_max : ℕ
name_max = 255

abbrev pub at_empty_path : ℕ
at_empty_path = 4096

abbrev pub int32 : ℕ → ℤ
int32 w = if ltb (w % 2 ^ 32) (2 ^ 31) then pos (w % 2 ^ 32) else negsuc (2 ^ 32 - 1 - w % 2 ^ 32)

-- What the handlers do with `parsedArgs`: an error is EPERM, an index out of range ends the program.
unfoldable pub on_first {ℓ} : {A : Type ℓ} → SyscallCtx → Reading (List A) → (A → Outcome) → Outcome
on_first ctx unreadable k = reject ctx (some eperm)
on_first ctx panicked k = crashed
on_first ctx (read []) k = crashed
on_first ctx (read (x ∷ xs)) k = k x

unfoldable pub on_two {ℓ} :
    {A : Type ℓ} → SyscallCtx → Reading (List A) → (A → A → Outcome) → Outcome
on_two ctx unreadable k = reject ctx (some eperm)
on_two ctx panicked k = crashed
on_two ctx (read (x ∷ y ∷ xs)) k = k x y
on_two ctx (read _) k = crashed

unfoldable pub path_at : CallContext → ℕ → (String → Outcome) → Outcome
unfolding on_first
path_at c addr k = on_first c.ctx (read_syscall_string_args c.tracee ((addr, path_max) ∷ [])) k

unfoldable pub names_at : CallContext → ℕ → ℕ → ℕ → (String → String → Outcome) → Outcome
unfolding on_two
names_at c path name size k =
    on_two c.ctx (read_syscall_string_args c.tracee ((path, path_max) ∷ (name, size) ∷ [])) k

unfoldable pub bytes_at : CallContext → ℕ → ℕ → (Bytes → Outcome) → Outcome
unfolding on_first
bytes_at c addr size k = on_first c.ctx (read_syscall_bytes_args c.tracee ((addr, size) ∷ [])) k

unfoldable pub mount_notified : CallContext → Args → Outcome
mount_notified c a =
    elim (read_syscall_string_args c.tracee
      ((a.arg0, path_max) ∷ (a.arg1, path_max) ∷ (a.arg2, path_max) ∷ (a.arg4, path_max) ∷ [])) [
        | read (source ∷ target ∷ fs_type ∷ mount_data ∷ _) ↦
            process_mount c.ctx c.process c.parsers (
              some (record {
                header = none;
                source = source;
                target = target;
                fs_type = fs_type;
                flags = a.arg3;
                mount_data = mount_data;
              }))
        | unreadable ↦ process_mount c.ctx c.process c.parsers none
        | _ ↦ crashed
      ]

unfoldable pub umount_notified : CallContext → Args → Outcome
umount_notified c a = elim (read_syscall_string_args c.tracee ((a.arg0, path_max) ∷ [])) [
  | read (target ∷ _) ↦ process_umount2 c.ctx c.process c.parsers (
      some (record {
        header = none;
        source = "";
        target = target;
        fs_type = "";
        flags = a.arg1;
        mount_data = "";
      }))
  | unreadable ↦ process_umount2 c.ctx c.process c.parsers none
  | _ ↦ crashed
]

unfoldable pub chown_notified : CallContext → Args → Outcome
unfolding path_at
chown_notified c a = path_at c a.arg0 (λ path. respond (process_chown c.chown c.ctx.req_id path))

unfoldable pub fchown_notified : CallContext → Args → Outcome
fchown_notified c a = respond (process_fchown c.chown c.ctx.req_id (int32 a.arg0))

unfoldable pub fchownat_notified : CallContext → Args → Outcome
unfolding path_at
fchownat_notified c a = path_at c a.arg1 (λ path.
    respond
      (process_fchownat c.chown c.ctx.req_id (int32 a.arg0) (has_flag at_empty_path a.arg4) path))

-- The descriptor of an f form is the 32-bit word of its int32.
unfoldable pub setxattr_notified : CallContext → Args → String → Outcome
unfolding names_at bytes_at
setxattr_notified c a name_of_call = names_at c a.arg0 a.arg1 path_max (λ path name.
    bytes_at c a.arg2 a.arg3
      (λ val. (process_setxattr (c.xattr 0) c.ctx.req_id name_of_call 0 path name val a.arg4).0))

unfoldable pub fsetxattr_notified : CallContext → Args → Outcome
unfolding path_at bytes_at
fsetxattr_notified c a = path_at c a.arg1 (λ name.
    bytes_at c a.arg2 a.arg3 (λ val.
      (process_setxattr (c.xattr 0) c.ctx.req_id "" (a.arg0 % 2 ^ 32) "" name val a.arg4).0))

unfoldable pub getxattr_notified : CallContext → Args → String → Outcome
unfolding names_at
getxattr_notified c a name_of_call = names_at c a.arg0 a.arg1 name_max (λ path name.
    (process_getxattr (c.xattr a.arg2) c.ctx.req_id name_of_call 0 path name a.arg3).0)

unfoldable pub fgetxattr_notified : CallContext → Args → Outcome
unfolding path_at
fgetxattr_notified c a =
    path_at c a.arg1 (λ name.
      (process_getxattr (c.xattr a.arg2) c.ctx.req_id "" (a.arg0 % 2 ^ 32) "" name a.arg3).0)

unfoldable pub removexattr_notified : CallContext → Args → String → Outcome
unfolding names_at
removexattr_notified c a name_of_call =
    names_at c a.arg0 a.arg1 path_max
      (λ path name. (process_removexattr (c.xattr 0) c.ctx.req_id name_of_call 0 path name).0)

unfoldable pub fremovexattr_notified : CallContext → Args → Outcome
unfolding path_at
fremovexattr_notified c a =
    path_at c a.arg1
      (λ name. (process_removexattr (c.xattr 0) c.ctx.req_id "" (a.arg0 % 2 ^ 32) "" name).0)

-- A process without CAP_SYS_ADMIN sees no trusted attributes: the kernel answers.
unfoldable pub listxattr_notified : CallContext → Args → String → Outcome
unfolding path_at
listxattr_notified c a name_of_call = path_at c a.arg0 (λ path.
    if not c.process.is_sys_admin
    then respond (create_continue_response c.ctx.req_id)
    else (process_listxattr (c.xattr a.arg1) c.ctx.req_id name_of_call 0 path a.arg2).0)

unfoldable pub flistxattr_notified : CallContext → Args → Outcome
flistxattr_notified c a =
    if not c.process.is_sys_admin
    then respond (create_continue_response c.ctx.req_id)
    else (process_listxattr (c.xattr a.arg1) c.ctx.req_id "" (a.arg0 % 2 ^ 32) "" a.arg2).0

-- `binary.LittleEndian.Uint64`, of eight bytes.
unfoldable pub little_endian : Bytes → ℕ
little_endian [] = 0
little_endian (b ∷ bs) = b + 256 * little_endian bs

unfoldable pub openat2_notified : CallContext → Args → Outcome
unfolding path_at bytes_at little_endian
openat2_notified c a = path_at c a.arg1 (λ path. bytes_at c a.arg2 a.arg3 (λ how.
    if ltb (length how) 24
    then respond (create_error_response c.ctx.req_id (some einval))
    else (process_openat2 c.openat2 c.ctx.req_id (int32 a.arg0) (record {
      path = path;
      flags = little_endian (take 8 how);
      mode = little_endian (take 8 (drop 8 how));
      resolve = little_endian (take 8 (drop 16 how));
    })).outcome))

-- processReboot, processSwapon and processSwapoff.
unfoldable pub pretended : CallContext → Outcome
pretended c = respond (create_success_response c.ctx.req_id)

-- The switch on the name of the call.
unfoldable pub handlers : CallContext → Args → Map String Outcome
handlers c a =
    ("openat2", openat2_notified c a)
    ∷ ("mount", mount_notified c a)
    ∷ ("umount2", umount_notified c a)
    ∷ ("reboot", pretended c)
    ∷ ("swapon", pretended c)
    ∷ ("swapoff", pretended c)
    ∷ ("chown", chown_notified c a)
    ∷ ("fchown", fchown_notified c a)
    ∷ ("fchownat", fchownat_notified c a)
    ∷ ("setxattr", setxattr_notified c a "setxattr")
    ∷ ("lsetxattr", setxattr_notified c a "lsetxattr")
    ∷ ("fsetxattr", fsetxattr_notified c a)
    ∷ ("getxattr", getxattr_notified c a "getxattr")
    ∷ ("lgetxattr", getxattr_notified c a "lgetxattr")
    ∷ ("fgetxattr", fgetxattr_notified c a)
    ∷ ("removexattr", removexattr_notified c a "removexattr")
    ∷ ("lremovexattr", removexattr_notified c a "lremovexattr")
    ∷ ("fremovexattr", fremovexattr_notified c a)
    ∷ ("listxattr", listxattr_notified c a "listxattr")
    ∷ ("llistxattr", listxattr_notified c a "llistxattr")
    ∷ ("flistxattr", flistxattr_notified c a)
    ∷ []

unfoldable pub process_syscall : Bool → Bool → CallContext → Args → String → Answer
unfolding handlers
process_syscall known_container still_valid c a name =
    if not known_container
    then sent (create_error_response c.ctx.req_id (some eperm))
    else elim (lookup name (handlers c a)) [
      | none ↦ sent (create_error_response c.ctx.req_id (some einval))
      | some outcome ↦ answer c.ctx still_valid outcome
    ]
