-- ===== src/Seccomp/Openat2/Laws.antt =====
-- What openat2 opens for a process.
use sysbox_fs.Prelude.{
  ℕ, String, ◌≡◌, inl, inr, refl, subst, true, Option, none, some, List, [], ◌∷◌, string_eq, arith,
  Bool-cases,
}
use sysbox_fs.Prelude.Int.{ℤ}
use sysbox_fs.Text.{clean}
use sysbox_fs.Mount.Flags.{has_flag, clear_flag}
use sysbox_fs.Seccomp.Openat2.{
  OpenRequest, OpenReply, not_reached, refused_with, opened, OpenOps, Opening, is_sysboxfs_mount,
  openat2_path, after_open, let_kernel, or_no_path, open_at, process_openat2, o_path,
  resolve_in_root, clean_resolve,
}

-- The descriptors of an answer of the agent.
abbrev pub fds_of : OpenReply → List ℕ
fds_of not_reached = []
fds_of (refused_with e) = []
fds_of (opened fd) = fd ∷ []

after_open-request :
    (ops : OpenOps) (req_id : ℕ) (r : OpenRequest) (reply : OpenReply)
    → ((after_open ops req_id r reply).sent_request ≡ some r)
      × ((after_open ops req_id r reply).closed_fds ≡ fds_of reply)
unfolding after_open
after_open-request ops req_id r not_reached = (refl, refl)
after_open-request ops req_id r (refused_with e) = (refl, refl)
after_open-request ops req_id r (opened fd) = (refl, refl)

-- What is said of an opening that sent a request.
abbrev pub IsConfined : OpenOps → OpenRequest → OpenRequest → Opening → Type 0
IsConfined ops request sent opening =
    (is_sysboxfs_mount sent.path ≡ true)
    × (sent.flags ≡ clear_flag o_path request.flags)
    × (opening.closed_fds ≡ fds_of (ops.agent sent))

open_at-IsConfined :
    (ops : OpenOps) (req_id : ℕ) (request sent : OpenRequest) (path : Option String)
    → (open_at ops req_id request path).sent_request ≡ some sent
    → IsConfined ops request sent (open_at ops req_id request path)
unfolding open_at let_kernel
open_at-IsConfined ops req_id request sent none h = absurd (ground arith)
open_at-IsConfined ops req_id request sent (some path) h =
    let full = or_no_path (ops.resolve_proc_self (clean path)) in
    let asked : OpenRequest = record request {
      path = full;
      flags = clear_flag o_path request.flags;
      resolve = clean_resolve request.resolve;
    } in
    let (request_is, closed_are) = after_open-request ops req_id asked (ops.agent asked) in
    elim (Bool-cases (is_sysboxfs_mount full)) [
      | inr outside ↦ absurd (ground arith)
      | inl inside ↦
          let same : asked ≡ sent = ground arith in
          subst (λ r. IsConfined ops request r (open_at ops req_id request (some path))) same
            (inside, refl, rw inside closed_are)
    ]

-- If openat2 has a file opened for the process, its path is that of a sysbox-fs mount or below one,
-- the flags are those of the call without O_PATH, and a descriptor that the agent hands over is
-- closed once, whether it could be injected or not.
pub process_openat2-IsConfined :
    (ops : OpenOps) (req_id : ℕ) (dirfd : ℤ) (request sent : OpenRequest)
    → (process_openat2 ops req_id dirfd request).sent_request ≡ some sent
    → IsConfined ops request sent (process_openat2 ops req_id dirfd request)
unfolding process_openat2
process_openat2-IsConfined ops req_id dirfd request sent h =
    open_at-IsConfined ops req_id request sent
      (openat2_path ops dirfd request.path (has_flag resolve_in_root request.resolve)) h
