-- ===== src/Seccomp/Chown.antt =====
-- The notifications of chown, fchown and fchownat (seccomp/chown.go). What procfs says of the process
-- and the mountinfo of the process are parameters.
pub mod Laws
use sysbox_fs.Prelude.{
  ℕ, String, Bool, true, false, ◌&&◌, not, Option, none, some, ◌==◌, string_eq, if◌then◌else◌,
}
use sysbox_fs.Prelude.Int.{ℤ, negsuc, int_eq}
use sysbox_fs.Text.{is_abs, join}
use sysbox_fs.Mount.Info.{MountInfo, MountInfoParser, get_info}
use sysbox_fs.Seccomp.Context.{
  SysResponse, create_success_response, create_continue_response, create_error_response, eacces,
}

-- `none` is a call that fails.
pub record ChownOps : Type 0 where
  pub cwd : String
  pub get_fd : ℤ → Option String
  pub resolve_proc_self : String → Option String
  pub mount_info : Option MountInfoParser

-- AT_FDCWD.
abbrev pub at_fdcwd : ℤ
at_fdcwd = negsuc 99

is_sysfs : Option MountInfo → Bool
is_sysfs none = false
is_sysfs (some info) = info.fs_type == "sysfs"

unfoldable pub ignore_chown : ChownOps → String → Bool
unfolding is_sysfs
ignore_chown ops path =
    if not (path == "/sys")
    then false
    else elim ops.mount_info [ none ↦ false | some mip ↦ is_sysfs (get_info mip path) ]

-- The end of all three handlers.
unfoldable pub chown_response : ChownOps → ℕ → String → SysResponse
unfolding ignore_chown
chown_response ops req_id path =
    if ignore_chown ops path
    then create_success_response req_id
    else create_continue_response req_id

from_cwd : ChownOps → String → String
from_cwd ops path = if is_abs path then path else join ops.cwd path

-- chown: the path after ResolveProcSelf, or its error.
unfoldable pub chown_at : ChownOps → ℕ → Option String → SysResponse
unfolding from_cwd chown_response
chown_at ops req_id none = create_error_response req_id (some eacces)
chown_at ops req_id (some path) = chown_response ops req_id (from_cwd ops path)

unfoldable pub process_chown : ChownOps → ℕ → String → SysResponse
unfolding chown_at
process_chown ops req_id path = chown_at ops req_id (ops.resolve_proc_self path)

-- A descriptor that leads nowhere is left to the kernel.
fchown_found : ChownOps → ℕ → Option String → SysResponse
unfolding chown_at
fchown_found ops req_id none = create_continue_response req_id
fchown_found ops req_id (some path) = chown_at ops req_id (ops.resolve_proc_self path)

unfoldable pub process_fchown : ChownOps → ℕ → ℤ → SysResponse
unfolding fchown_found
process_fchown ops req_id path_fd = fchown_found ops req_id (ops.get_fd path_fd)

-- The path that fchownat means: `empty_path` tells whether AT_EMPTY_PATH is set.
unfoldable pub fchownat_path : ChownOps → ℤ → Bool → String → Option String
fchownat_path ops dir_fd empty_path path =
    if is_abs path
    then some path
    else if empty_path && path == ""
    then (if dir_fd == at_fdcwd then some ops.cwd else ops.get_fd dir_fd)
    else if dir_fd == at_fdcwd
    then some (join ops.cwd path)
    else elim (ops.get_fd dir_fd) [ none ↦ none | some dir_path ↦ some (join dir_path path) ]

fchownat_at : ChownOps → ℕ → Option String → SysResponse
unfolding chown_response
fchownat_at ops req_id none = create_error_response req_id (some eacces)
fchownat_at ops req_id (some path) = chown_response ops req_id path

fchownat_found : ChownOps → ℕ → Option String → SysResponse
unfolding fchownat_at
fchownat_found ops req_id none = create_continue_response req_id
fchownat_found ops req_id (some full) = fchownat_at ops req_id (ops.resolve_proc_self full)

unfoldable pub process_fchownat : ChownOps → ℕ → ℤ → Bool → String → SysResponse
unfolding fchownat_path fchownat_found
process_fchownat ops req_id dir_fd empty_path path =
    fchownat_found ops req_id (fchownat_path ops dir_fd empty_path path)
