-- ===== src/Seccomp/Openat2.antt =====
-- The notifications of openat2 (seccomp/openat2.go, and IsSysboxfsMount of mount/service.go). What
-- procfs says of the process, the nsenter agent and the injection of a descriptor are parameters.
pub mod Laws
use sysbox_fs.Prelude.{
  ℕ, String, Bool, true, false, ◌&&◌, ◌||◌, not, Option, none, some, List, [], ◌∷◌, any, ◌==◌,
  string_eq, if◌then◌else◌,
}
use sysbox_fs.Prelude.Int.{ℤ, int_eq}
use sysbox_fs.Text.{is_abs, join, clean, has_prefix, trim_prefix, concat}
use sysbox_fs.Mount.Flags.{has_flag, clear_flag}
use sysbox_fs.Seccomp.Context.{
  SysResponse, create_success_response_with_ret_value, create_continue_response,
  create_error_response, Outcome, respond, failed, einval,
}
use sysbox_fs.Seccomp.Chown.{at_fdcwd}

-- The RESOLVE flags, and O_PATH.
abbrev pub resolve_no_xdev : ℕ
resolve_no_xdev = 1

abbrev pub resolve_no_magiclinks : ℕ
resolve_no_magiclinks = 2

abbrev pub resolve_no_symlinks : ℕ
resolve_no_symlinks = 4

abbrev pub resolve_beneath : ℕ
resolve_beneath = 8

abbrev pub resolve_in_root : ℕ
resolve_in_root = 16

abbrev pub o_path : ℕ
o_path = 2097152

-- The mounts of sysbox-fs in procfs and in sysfs.
abbrev pub procfs_mounts : List String
procfs_mounts = "/proc/uptime" ∷ "/proc/swaps" ∷ "/proc/sys" ∷ []

abbrev pub sysfs_mounts : List String
sysfs_mounts = "/sys/kernel" ∷ "/sys/devices/virtual" ∷ "/sys/module/nf_conntrack/parameters" ∷ []

-- Equal to a mount's path, or below it.
unfoldable pub is_sysboxfs_mount : String → Bool
unfolding has_prefix
is_sysboxfs_mount path =
    any (λ m. has_prefix path (concat m "/") || path == m) procfs_mounts
    || any (λ m. has_prefix path (concat m "/") || path == m) sysfs_mounts

pub record OpenRequest : Type 0 where
  pub path : String
  pub flags : ℕ
  pub mode : ℕ
  pub resolve : ℕ

pub data OpenReply : Type 0 where
  not_reached : OpenReply
  refused_with : ℕ → OpenReply
  opened : ℕ → OpenReply

pub record OpenOps : Type 0 where
  pub cwd : String
  pub get_fd : ℤ → Option String
  pub resolve_proc_self : String → Option String
  pub agent : OpenRequest → OpenReply
  pub inject : ℕ → Option ℕ

-- What the handler does: its outcome, the request that it sent, the descriptors of its own that it
-- closed.
pub record Opening : Type 0 where
  pub outcome : Outcome
  pub sent_request : Option OpenRequest
  pub closed_fds : List ℕ

-- The path that the call means; `none` where its directory's descriptor cannot be read.
unfoldable pub openat2_path : OpenOps → ℤ → String → Bool → Option String
unfolding trim_prefix
openat2_path ops dirfd path in_root =
    if is_abs path && not in_root
    then some path
    else if dirfd == at_fdcwd
    then some (if is_abs path then path else join ops.cwd path)
    else elim (ops.get_fd dirfd) [
      | none ↦ none
      | some dir ↦ some (if is_abs path then join dir (trim_prefix path "/") else join dir path)
    ]

unfoldable pub clean_resolve : ℕ → ℕ
clean_resolve resolve = clear_flag resolve_beneath (
    clear_flag resolve_no_symlinks
      (clear_flag resolve_no_magiclinks (clear_flag resolve_no_xdev resolve)))

after_inject : ℕ → Option ℕ → Outcome
after_inject req_id none = respond (create_error_response req_id (some einval))
after_inject req_id (some target_fd) =
    respond (create_success_response_with_ret_value req_id target_fd)

after_open : OpenOps → ℕ → OpenRequest → OpenReply → Opening
unfolding after_inject
after_open ops req_id request not_reached = record {
  outcome = failed;
  sent_request = some request;
  closed_fds = [];
}
after_open ops req_id request (refused_with e) = record {
  outcome = respond (create_error_response req_id (some e));
  sent_request = some request;
  closed_fds = [];
}
after_open ops req_id request (opened fd) = record {
  outcome = after_inject req_id (ops.inject fd);
  sent_request = some request;
  closed_fds = fd ∷ [];
}

let_kernel : ℕ → Opening
let_kernel req_id = record {
  outcome = respond (create_continue_response req_id);
  sent_request = none;
  closed_fds = [];
}

-- An error of ResolveProcSelf leaves the empty path.
or_no_path : Option String → String
or_no_path none = ""
or_no_path (some path) = path

open_at : OpenOps → ℕ → OpenRequest → Option String → Opening
unfolding is_sysboxfs_mount clean_resolve after_open let_kernel or_no_path
open_at ops req_id request none = let_kernel req_id
open_at ops req_id request (some path) =
    let full = or_no_path (ops.resolve_proc_self (clean path)) in
    if is_sysboxfs_mount full
    then (let sent : OpenRequest = record request {
      path = full;
      flags = clear_flag o_path request.flags;
      resolve = clean_resolve request.resolve;
    } in
        after_open ops req_id sent (ops.agent sent))
    else let_kernel req_id

unfoldable pub process_openat2 : OpenOps → ℕ → ℤ → OpenRequest → Opening
unfolding open_at openat2_path
process_openat2 ops req_id dirfd request =
    open_at ops req_id request
      (openat2_path ops dirfd request.path (has_flag resolve_in_root request.resolve))
