-- ===== src/Tests/CallRuns.antt =====
-- The chown and xattr calls of a process in the small file tree.
use sysbox_fs.Prelude.{ℕ, String, ◌≡◌, refl, true, false, none, some, [], ◌∷◌, string_eq}
use sysbox_fs.Text.{split_on, has_prefix, trim_prefix, is_abs, join, byte_length}
use sysbox_fs.Process.Perm.{access_granted, covers}
use sysbox_fs.Process.Path.{path_access}
use sysbox_fs.Process.ProcSelf.{resolve_proc_self, is_proc_self}
use sysbox_fs.Seccomp.Tracer.Targets.{process_path_access}
use sysbox_fs.Prelude.Int.{pos}
use sysbox_fs.Mount.Info.{MountInfoParser, add_mount, get_info}
use sysbox_fs.Seccomp.Context.{
  create_success_response, create_error_response, create_success_response_with_ret_value, respond,
  enoent, eperm,
}
use sysbox_fs.Seccomp.Chown.{ChownOps, process_chown, process_fchown, process_fchownat}
use sysbox_fs.Seccomp.Chown.Laws.{Answers, chown_handlers-Answers}
use sysbox_fs.Seccomp.Xattr.{
  XattrCall, setxattr, XattrRequest, XattrOps, plain_response, value_response, enotsup,
  process_xattr, process_setxattr, process_getxattr, process_listxattr, process_removexattr,
}
use sysbox_fs.Seccomp.Xattr.Laws.{IsGranted, process_xattr-IsGranted}
use sysbox_fs.Tests.Fixtures.{initial, entry}
use sysbox_fs.Text.{trim_prefix, clean}
use sysbox_fs.Mount.Flags.{clear_flag}
use sysbox_fs.Seccomp.Chown.{at_fdcwd}
use sysbox_fs.Seccomp.Openat2.{
  OpenOps, OpenRequest, opened, process_openat2, openat2_path, o_path, resolve_beneath,
}
use sysbox_fs.Seccomp.Openat2.Laws.{IsConfined, process_openat2-IsConfined}
use sysbox_fs.Tests.Tree.{files, process}

-- A sysfs at /sys.
abbrev sys_mounts : MountInfoParser
sys_mounts = add_mount initial (entry 20 1 "0:20" "sysfs" "/sys" "rw")

abbrev pub chown_ops : ChownOps
chown_ops = record {
  cwd = "/";
  get_fd = λ fd. some "/sys";
  resolve_proc_self = resolve_proc_self files "7";
  mount_info = some sys_mounts;
}

chown_handlers-Answers_run :
    Answers chown_ops 5 (process_chown chown_ops 5 "sys")
    × Answers chown_ops 5 (process_fchown chown_ops 5 (pos 3))
    × Answers chown_ops 5 (process_fchownat chown_ops 5 (pos 3) true "sys")
chown_handlers-Answers_run = chown_handlers-Answers chown_ops 5 (pos 3) true "sys"

-- chown("") is an error of the kernel, but it is taken for the working directory.
empty_chown : process_chown (record chown_ops { cwd = "/sys" }) 5 "" ≡ create_success_response 5
unfolding create_success_response process_chown resolve_proc_self is_abs join get_info add_mount
empty_chown = refl

abbrev pub xattr_ops : XattrOps
xattr_ops = record {
  is_sys_admin = true;
  cwd = "/";
  root = "/";
  get_fd = λ fd. some "/etc/passwd";
  resolve_proc_self = resolve_proc_self files "7";
  path_access =
      λ follow p. process_path_access files (record process { follow_symlink = follow }) "7" p;
  agent = λ r. plain_response;
  write_memory = λ v. true;
}

abbrev opaque : XattrCall
opaque = setxattr "trusted.overlay.opaque" (121 ∷ []) 0

abbrev opaque_request : XattrRequest
opaque_request = record { syscall_name = "fsetxattr"; path = "/etc/passwd"; call = opaque }

process_xattr-IsGranted_example : IsGranted xattr_ops "fsetxattr" 3 "" opaque opaque_request
unfolding process_xattr resolve_proc_self is_abs is_proc_self has_prefix process_path_access
    path_access byte_length split_on join access_granted covers trim_prefix
process_xattr-IsGranted_example =
    process_xattr-IsGranted xattr_ops 5 "fsetxattr" 3 "" opaque opaque_request refl

-- A value that cannot be written to the process' memory; the size of a list alone; a removal without
-- the capability.
abbrev valued_ops : XattrOps
valued_ops = record xattr_ops {
  agent = λ r. value_response 1 (121 ∷ []);
  write_memory = λ v. false;
}

get_unwritable :
    (process_getxattr valued_ops 5 "fgetxattr" 3 "" "trusted.overlay.opaque" 8).0
    ≡ respond (create_error_response 5 (some enotsup))
unfolding process_getxattr process_xattr resolve_proc_self is_abs is_proc_self has_prefix
    process_path_access path_access byte_length split_on join access_granted covers
get_unwritable = refl

list_size_only :
    (process_listxattr (record valued_ops { is_sys_admin = false }) 5 "flistxattr" 3 "" 0).0
    ≡ respond (create_success_response_with_ret_value 5 1)
unfolding process_listxattr process_xattr resolve_proc_self is_abs is_proc_self has_prefix
    process_path_access path_access byte_length split_on join access_granted covers
list_size_only = refl

remove_unprivileged :
    process_removexattr
      (record xattr_ops { is_sys_admin = false })
      5
      "fremovexattr"
      3
      ""
      "trusted.overlay.opaque"
    ≡ (respond (create_error_response 5 (some eperm)), none)
unfolding process_removexattr process_xattr
remove_unprivileged = refl

-- fsetxattr on descriptor 0 looks for the empty path.
descriptor_zero :
    process_setxattr xattr_ops 5 "fsetxattr" 0 "" "trusted.overlay.opaque" (121 ∷ []) 0
    ≡ (respond (create_error_response 5 (some enoent)), none)
unfolding create_error_response process_setxattr process_xattr resolve_proc_self is_abs
    process_path_access path_access
descriptor_zero = refl

abbrev pub open_ops : OpenOps
open_ops = record {
  cwd = "/home";
  get_fd = λ fd. some "/proc/sys";
  resolve_proc_self = resolve_proc_self files "7";
  agent = λ r. opened 12;
  inject = λ fd. none;
}

abbrev open_request : String → ℕ → OpenRequest
open_request path resolve = record { path = path; flags = o_path; mode = 0; resolve = resolve }

process_openat2-IsConfined_example :
    IsConfined open_ops
      (open_request "kernel" resolve_beneath)
      (record { path = "/proc/sys/kernel"; flags = 0; mode = 0; resolve = 0 })
      (process_openat2 open_ops 5 (pos 3) (open_request "kernel" resolve_beneath))
unfolding process_openat2 is_abs resolve_proc_self clean join is_proc_self clear_flag
process_openat2-IsConfined_example =
    process_openat2-IsConfined open_ops 5 (pos 3) (open_request "kernel" resolve_beneath)
      (record { path = "/proc/sys/kernel"; flags = 0; mode = 0; resolve = 0 }) refl

-- An absolute path with RESOLVE_IN_ROOT is not put under the working directory.
in_root_of_cwd : openat2_path open_ops at_fdcwd "/proc/sys" true ≡ some "/proc/sys"
unfolding openat2_path is_abs
in_root_of_cwd = refl
