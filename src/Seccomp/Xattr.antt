-- ===== src/Seccomp/Xattr.antt =====
-- The notifications of setxattr, getxattr, removexattr and listxattr, with their f and l forms
-- (seccomp/xattr.go). What procfs says of the process, the nsenter agent and the memory of the process
-- are parameters.
pub mod Laws
use sysbox_fs.Prelude.{
  ℕ, String, Bool, true, false, ◌&&◌, ◌||◌, not, Option, none, some, List, [], ◌∷◌, any, ◌==◌,
  nat_eq, string_eq, ltb, Result, ok, err, if◌then◌else◌,
}
use sysbox_fs.Prelude.Bytes.{Bytes}
use sysbox_fs.Text.{is_abs, join}
use sysbox_fs.Seccomp.Context.{
  SysResponse, create_success_response, create_success_response_with_ret_value,
  create_continue_response, create_error_response, Outcome, respond, failed, crashed, eperm, eacces,
}

abbrev pub allowed_xattr_list : List String
allowed_xattr_list = "trusted.overlay.opaque" ∷ []

-- The operation, with what it takes beside the file and the name.
pub data XattrCall : Type 0 where
  setxattr : String → Bytes → ℕ → XattrCall
  getxattr : String → ℕ → XattrCall
  removexattr : String → XattrCall
  listxattr : ℕ → XattrCall

-- A request to the agent: the system call's name, the path, the operation. The header with the
-- attributes of the process is left out.
pub record XattrRequest : Type 0 where
  pub syscall_name : String
  pub path : String
  pub call : XattrCall

-- The agent cannot be reached; an error; success; a value of some size.
pub data XattrReply : Type 0 where
  unreachable : XattrReply
  error_response : ℕ → XattrReply
  plain_response : XattrReply
  value_response : ℕ → Bytes → XattrReply

-- The process; PathAccess, whether links are followed in front; the agent; whether a value of some
-- bytes can be written to the memory of the process.
pub record XattrOps : Type 0 where
  pub is_sys_admin : Bool
  pub cwd : String
  pub root : String
  pub get_fd : ℕ → Option String
  pub resolve_proc_self : String → Option String
  pub path_access : Bool → String → Result (Option ℕ) String
  pub agent : XattrRequest → XattrReply
  pub write_memory : Bytes → Bool

-- Under the root of the process, from its working directory.
unfoldable pub place : XattrOps → String → String
place ops path = join ops.root (if is_abs path then path else join ops.cwd path)

unfoldable pub sanitize_path : XattrOps → String → Bool → Result (Option ℕ) String
unfolding place
sanitize_path ops path follow_symlink = elim (ops.resolve_proc_self path) [
  | none ↦ err (some eacces)
  | some p ↦ elim (ops.path_access follow_symlink p) [ err e ↦ err e | ok r ↦ ok (place ops r) ]
]

-- The lists have no capability to check, and no name.
unfoldable pub is_ignored : XattrCall → Bool
is_ignored (setxattr name val flags) = not (any (λ n. n == name) allowed_xattr_list)
is_ignored (getxattr name size) = not (any (λ n. n == name) allowed_xattr_list)
is_ignored (removexattr name) = not (any (λ n. n == name) allowed_xattr_list)
is_ignored (listxattr size) = false

unfoldable pub is_privileged : XattrCall → Bool
is_privileged (setxattr name val flags) = true
is_privileged (getxattr name size) = true
is_privileged (removexattr name) = true
is_privileged (listxattr size) = false

-- `syscallName != "l..."`.
unfoldable pub follows_symlink : XattrCall → String → Bool
follows_symlink (setxattr name val flags) syscall_name = not (syscall_name == "lsetxattr")
follows_symlink (getxattr name size) syscall_name = not (syscall_name == "lgetxattr")
follows_symlink (removexattr name) syscall_name = not (syscall_name == "lremovexattr")
follows_symlink (listxattr size) syscall_name = not (syscall_name == "llistxattr")

unfoldable pub asked_size : XattrCall → ℕ
asked_size (getxattr name size) = size
asked_size (listxattr size) = size
asked_size call = 0

abbrev pub enotsup : ℕ
enotsup = 95

unfoldable pub returns_value : XattrCall → Bool
returns_value (getxattr name size) = true
returns_value (listxattr size) = true
returns_value call = false

-- The last step: a reply without a value where one is read ends the program.
unfoldable pub after_xattr : XattrOps → ℕ → XattrCall → XattrReply → Outcome
unfolding asked_size returns_value
after_xattr ops req_id call unreachable = failed
after_xattr ops req_id call (error_response e) = respond (create_error_response req_id (some e))
after_xattr ops req_id call plain_response =
    if returns_value call then crashed else respond (create_success_response req_id)
after_xattr ops req_id call (value_response size val) =
    if not (returns_value call)
    then respond (create_success_response req_id)
    else if ltb 0 (asked_size call) && ltb 0 size && not (ops.write_memory val)
    then respond (create_error_response req_id (some enotsup))
    else respond (create_success_response_with_ret_value req_id size)

-- From sanitizePath on; the request, if one is sent.
unfoldable pub xattr_at :
    XattrOps → ℕ → String → XattrCall → Result (Option ℕ) String → Outcome × Option XattrRequest
unfolding after_xattr
xattr_at ops req_id syscall_name call (err e) = (respond (create_error_response req_id e), none)
xattr_at ops req_id syscall_name call (ok path) =
    let request : XattrRequest = record { syscall_name = syscall_name; path = path; call = call } in
    (after_xattr ops req_id call (ops.agent request), some request)

-- The file that is meant: a descriptor of 0 counts as none.
unfoldable pub xattr_path : XattrOps → ℕ → String → Option String
xattr_path ops path_fd path = if path_fd == 0 then some path else ops.get_fd path_fd

unfoldable pub process_xattr :
    XattrOps → ℕ → String → ℕ → String → XattrCall → Outcome × Option XattrRequest
unfolding xattr_at xattr_path is_ignored is_privileged follows_symlink sanitize_path
process_xattr ops req_id syscall_name path_fd path call =
    if is_ignored call
    then (respond (create_continue_response req_id), none)
    else if is_privileged call && not ops.is_sys_admin
    then (respond (create_error_response req_id (some eperm)), none)
    else elim (xattr_path ops path_fd path) [
      | none ↦ (respond (create_continue_response req_id), none)
      | some p ↦
          xattr_at ops req_id syscall_name call
            (sanitize_path ops p (follows_symlink call syscall_name))
    ]

-- The four handlers.
unfoldable pub process_setxattr :
    XattrOps → ℕ → String → ℕ → String → String → Bytes → ℕ → Outcome × Option XattrRequest
process_setxattr ops req_id syscall_name path_fd path name val flags =
    process_xattr ops req_id syscall_name path_fd path (setxattr name val flags)

unfoldable pub process_getxattr :
    XattrOps → ℕ → String → ℕ → String → String → ℕ → Outcome × Option XattrRequest
process_getxattr ops req_id syscall_name path_fd path name size =
    process_xattr ops req_id syscall_name path_fd path (getxattr name size)

unfoldable pub process_removexattr :
    XattrOps → ℕ → String → ℕ → String → String → Outcome × Option XattrRequest
process_removexattr ops req_id syscall_name path_fd path name =
    process_xattr ops req_id syscall_name path_fd path (removexattr name)

unfoldable pub process_listxattr :
    XattrOps → ℕ → String → ℕ → String → ℕ → Outcome × Option XattrRequest
process_listxattr ops req_id syscall_name path_fd path size =
    process_xattr ops req_id syscall_name path_fd path (listxattr size)
