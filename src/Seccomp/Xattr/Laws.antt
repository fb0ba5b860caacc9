-- ===== src/Seccomp/Xattr/Laws.antt =====
-- What the agent is asked to do with extended attributes.
use sysbox_fs.Prelude.{
  ℕ, String, ◌≡◌, refl, ◌⊎◌, Option, eq_iff, ◌==◌, Result, err, if◌then◌else◌, inl, inr, Bool, true,
  false, ◌&&◌, not, some, string_eq, nat_eq, ok, arith, Bool-cases, Option-cases, Result-cases,
}
use sysbox_fs.Text.{is_abs, join}
use sysbox_fs.Seccomp.Xattr.{
  XattrCall, setxattr, getxattr, removexattr, listxattr, XattrRequest, XattrOps, place,
  sanitize_path, is_ignored, is_privileged, follows_symlink, xattr_at, xattr_path, process_xattr,
}

sanitize_path-granted :
    (ops : XattrOps) (path r : String) (follow : Bool)
    → sanitize_path ops path follow ≡ ok r
    → (p : String) × (granted : String) × (ops.resolve_proc_self path ≡ some p)
      × (ops.path_access follow p ≡ ok granted)
      × (r ≡ place ops granted)
unfolding sanitize_path
sanitize_path-granted ops path r follow h = elim (Option-cases (ops.resolve_proc_self path)) [
  | inl e ↦ absurd (ground arith)
  | inr (p, e) ↦ elim (Result-cases (ops.path_access follow p)) [
    | inr (er, denied) ↦ absurd (ground arith)
    | inl (granted, a) ↦ (p, granted, e, a, ground arith)
  ]
]

-- What a call must have: a privileged process, and the one name that is handled; nothing for a list.
abbrev pub Permitted : XattrOps → XattrCall → Type 0
Permitted ops (setxattr name val flags) =
    (name ≡ "trusted.overlay.opaque") × (ops.is_sys_admin ≡ true)
Permitted ops (getxattr name size) = (name ≡ "trusted.overlay.opaque") × (ops.is_sys_admin ≡ true)
Permitted ops (removexattr name) = (name ≡ "trusted.overlay.opaque") × (ops.is_sys_admin ≡ true)
Permitted ops (listxattr size) = Unit

-- The form of a call that does not follow a link at the end.
abbrev pub l_form : XattrCall → String
l_form (setxattr name val flags) = "lsetxattr"
l_form (getxattr name size) = "lgetxattr"
l_form (removexattr name) = "lremovexattr"
l_form (listxattr size) = "llistxattr"

-- The path that the call means, by path or by descriptor; what it resolves to; what PathAccess grants;
-- the request with that path, absolute and under the root of the process.
pub record IsGranted (ops : XattrOps) (syscall_name : String) (path_fd : ℕ) (path : String)
    (call : XattrCall) (request : XattrRequest) : Type 0 where
  pub permitted : Permitted ops call
  pub meant : String
  pub means : ((path_fd ≡ 0) × (path ≡ meant)) ⊎ (ops.get_fd path_fd ≡ some meant)
  pub resolved : String
  pub resolves : ops.resolve_proc_self meant ≡ some resolved
  pub granted : String
  pub grants : ops.path_access (not (syscall_name == l_form call)) resolved ≡ ok granted
  pub sent : request ≡ record {
    syscall_name = syscall_name;
    path = join ops.root (if is_abs granted then granted else join ops.cwd granted);
    call = call;
  }

Permitted-of :
    (ops : XattrOps) (call : XattrCall)
    → is_ignored call ≡ false
    → (is_privileged call && not ops.is_sys_admin) ≡ false
    → Permitted ops call
unfolding is_ignored is_privileged
Permitted-of ops (setxattr name val flags) handled allowed =
    (ground (arith, eq_iff "trusted.overlay.opaque" name), ground arith)
Permitted-of ops (getxattr name size) handled allowed =
    (ground (arith, eq_iff "trusted.overlay.opaque" name), ground arith)
Permitted-of ops (removexattr name) handled allowed =
    (ground (arith, eq_iff "trusted.overlay.opaque" name), ground arith)
Permitted-of ops (listxattr size) handled allowed = tt

follows-l_form :
    (call : XattrCall) (syscall_name : String)
    → follows_symlink call syscall_name ≡ not (syscall_name == l_form call)
unfolding follows_symlink
follows-l_form (setxattr name val flags) syscall_name = refl
follows-l_form (getxattr name size) syscall_name = refl
follows-l_form (removexattr name) syscall_name = refl
follows-l_form (listxattr size) syscall_name = refl

xattr_path-meant :
    (ops : XattrOps) (path_fd : ℕ) (path meant : String)
    → xattr_path ops path_fd path ≡ some meant
    → ((path_fd ≡ 0) × (path ≡ meant)) ⊎ (ops.get_fd path_fd ≡ some meant)
unfolding xattr_path
xattr_path-meant ops path_fd path meant h = elim (Bool-cases (path_fd == 0)) [
  | inl none_given ↦ inl (ground arith, ground arith)
  | inr given ↦ inr (ground arith)
]

xattr_at-request :
    (ops : XattrOps) (req_id : ℕ) (syscall_name : String) (call : XattrCall)
    (fine : Result (Option ℕ) String) (request : XattrRequest)
    → (xattr_at ops req_id syscall_name call fine).1 ≡ some request
    → (r : String) × (fine ≡ ok r)
      × (request ≡ record { syscall_name = syscall_name; path = r; call = call })
unfolding xattr_at
xattr_at-request ops req_id syscall_name call (err e) request h = absurd (ground arith)
xattr_at-request ops req_id syscall_name call (ok r) request h = (r, refl, ground arith)

-- If the nsenter agent is asked for an extended attribute, then the call is a listing, or the process
-- has CAP_SYS_ADMIN and the name is trusted.overlay.opaque; the path of the call, or that of its
-- descriptor, resolves to one for which PathAccess grants a path, with a link at the end followed
-- unless the call is of an l form; and the request is this call with the granted path, taken from the
-- working directory if it is relative, under the root of the process.
pub process_xattr-IsGranted :
    (ops : XattrOps) (req_id : ℕ) (syscall_name : String) (path_fd : ℕ) (path : String)
    (call : XattrCall) (request : XattrRequest)
    → (process_xattr ops req_id syscall_name path_fd path call).1 ≡ some request
    → IsGranted ops syscall_name path_fd path call request
unfolding process_xattr place
process_xattr-IsGranted ops req_id syscall_name path_fd path call request h =
    elim (Bool-cases (is_ignored call)) [
      | inl ignored ↦ absurd (ground arith)
      | inr handled ↦ elim (Bool-cases (is_privileged call && not ops.is_sys_admin)) [
        | inl refused ↦ absurd (ground arith)
        | inr allowed ↦ elim (Option-cases (xattr_path ops path_fd path)) [
          | inl gone ↦ absurd (ground arith)
          | inr (meant, e) ↦
              let (r, fine, asked) =
                xattr_at-request ops req_id syscall_name call
                  (sanitize_path ops meant (follows_symlink call syscall_name)) request
                  (ground arith) in
              let (resolved, granted, resolves, access, same) =
                sanitize_path-granted ops meant r (follows_symlink call syscall_name) fine in
              record {
                permitted = Permitted-of ops call handled allowed;
                meant = meant;
                means = xattr_path-meant ops path_fd path meant e;
                resolved = resolved;
                resolves = resolves;
                granted = granted;
                grants = ground (arith, follows-l_form call syscall_name);
                sent = ground arith;
              }
        ]
      ]
    ]
