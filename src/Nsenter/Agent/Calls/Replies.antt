-- ===== src/Nsenter/Agent/Calls/Replies.antt =====
-- The replies of the requests of system calls (nsenter/event.go), as the receiver takes them.
use sysbox_fs.Prelude.{
  ℕ, ◌≡◌, refl, String, Bool, true, false, Option, none, some, List, [], ◌∷◌, ◌==◌, string_eq,
  Result, ok, err, Result-cases, inl, inr, map, if◌then◌else◌,
}
use sysbox_fs.Prelude.Bytes.{Bytes}
use sysbox_fs.Seccomp.Context.{MountPayload}
use sysbox_fs.Nsenter.Mounts.{
  AgentReply, done, failed_with, no_element, process_mount_syscall_request,
  process_umount_syscall_request,
}
use sysbox_fs.Nsenter.Remounts.{GoError, bare_errno, other_error}
use sysbox_fs.Nsenter.Message.{NsMsg, dropped, taken_as, ChownPayload, XattrPayload}
use sysbox_fs.Nsenter.Agent.{Os, Outcome}
use sysbox_fs.Nsenter.Agent.Replies.{
  Fits, of_error, of_panic, of_dropped, of_inodes, of_getxattr, of_listxattr,
}
use sysbox_fs.Nsenter.Agent.Calls.{
  agent_outcome, header_of, personified, mounts_of, serve_mounts, serve_umounts,
  process_chown_syscall_request, call_reply, process_setxattr_syscall_request,
  process_removexattr_syscall_request, getxattr_reply, process_getxattr_syscall_request,
  listxattr_reply, process_listxattr_syscall_request, process_mount_inode_request, slept,
  process_sleep_request,
}

module _ {S : Type 0} (os : Os S) where
  of_agent-Fits :
      (msg : NsMsg) (r : AgentReply × S) → taken_as msg ≡ dropped → Fits (agent_outcome os msg r).0
  unfolding agent_outcome
  of_agent-Fits msg (done, s) d = of_dropped msg "" d
  of_agent-Fits msg (failed_with e, s) d = of_error (bare_errno e)
  of_agent-Fits msg (no_element, s) d = of_panic

  personified-Fits :
      (body : S → Outcome × S) (p : Option GoError × S)
      → ((s : S) → Fits (body s).0)
      → Fits (personified os body p).0
  unfolding personified
  personified-Fits body (some e, s) h = of_error e
  personified-Fits body (none, s) h = h s

  mounts_of-Fits : (ps : List MountPayload) (s : S) → Fits (mounts_of os ps s).0
  unfolding mounts_of taken_as
  mounts_of-Fits ps s =
      of_agent-Fits NsMsg.mount_syscall_response (process_mount_syscall_request os.kernel none ps s)
        refl

  if-Fits : (b : Bool) (r r' : Outcome × S) → Fits r.0 → Fits r'.0 → Fits (if b then r else r').0
  if-Fits true r r' f f' = f
  if-Fits false r r' f f' = f'

  pub serve_mounts-Fits : (ps : List MountPayload) (s : S) → Fits (serve_mounts os ps s).0
  unfolding serve_mounts
  serve_mounts-Fits [] s = of_panic
  serve_mounts-Fits (p ∷ ps) s =
      if-Fits (p.fs_type == "overlay") _ _
        (personified-Fits _ (os.personality s (header_of os p.header))
          (λ s'. mounts_of-Fits (p ∷ ps) s'))
        (mounts_of-Fits (p ∷ ps) s)

  pub serve_umounts-Fits : (ps : List MountPayload) (s : S) → Fits (serve_umounts os ps s).0
  unfolding serve_umounts taken_as
  serve_umounts-Fits ps s =
      of_agent-Fits NsMsg.umount_syscall_response (process_umount_syscall_request os.kernel ps s)
        refl

  pub process_chown_syscall_request-Fits :
      (ps : List ChownPayload) (s : S) → Fits (process_chown_syscall_request os ps s).0
  unfolding process_chown_syscall_request taken_as
  process_chown_syscall_request-Fits [] s = of_dropped NsMsg.chown_syscall_response "" refl
  process_chown_syscall_request-Fits (p ∷ ps) s =
      elim (Result-cases (os.chown s p.target p.uid p.gid)) [
        | inl (s', e) ↦
            rw (e, process_chown_syscall_request) (process_chown_syscall_request-Fits ps s')
        | inr (f, e) ↦ rw (e, process_chown_syscall_request) (of_error f)
      ]

  call_reply-Fits :
      (msg : NsMsg) (s : S) (r : Result GoError S)
      → taken_as msg ≡ dropped
      → Fits (call_reply os msg s r).0
  unfolding call_reply
  call_reply-Fits msg s (err e) d = of_error e
  call_reply-Fits msg s (ok s') d = of_dropped msg "" d

  pub process_setxattr_syscall_request-Fits :
      (p : XattrPayload) (s : S) → Fits (process_setxattr_syscall_request os p s).0
  unfolding process_setxattr_syscall_request taken_as
  process_setxattr_syscall_request-Fits p s =
      call_reply-Fits NsMsg.setxattr_response s
        (os.setxattr s (p.syscall == "lsetxattr") p.path p.name p.val p.flags) refl

  pub process_removexattr_syscall_request-Fits :
      (p : XattrPayload) (s : S) → Fits (process_removexattr_syscall_request os p s).0
  unfolding process_removexattr_syscall_request taken_as
  process_removexattr_syscall_request-Fits p s =
      call_reply-Fits NsMsg.removexattr_response s
        (os.removexattr s (p.syscall == "lremovexattr") p.path p.name) refl

  getxattr_reply-Fits : (r : Result GoError (Bytes × ℕ)) → Fits (getxattr_reply os r)
  unfolding getxattr_reply
  getxattr_reply-Fits (err e) = of_error e
  getxattr_reply-Fits (ok (v, n)) = of_getxattr v n

  pub process_getxattr_syscall_request-Fits :
      (p : XattrPayload) (s : S) → Fits (process_getxattr_syscall_request os p s).0
  unfolding process_getxattr_syscall_request
  process_getxattr_syscall_request-Fits p s =
      personified-Fits _ (os.personality s p.header)
        (λ s'. getxattr_reply-Fits (os.getxattr s' (p.syscall == "lgetxattr") p.path p.name p.size))

  listxattr_reply-Fits : (r : Result GoError (Bytes × ℕ)) → Fits (listxattr_reply os r)
  unfolding listxattr_reply
  listxattr_reply-Fits (err e) = of_error e
  listxattr_reply-Fits (ok (v, n)) = of_listxattr v n

  pub process_listxattr_syscall_request-Fits :
      (p : XattrPayload) (s : S) → Fits (process_listxattr_syscall_request os p s).0
  unfolding process_listxattr_syscall_request
  process_listxattr_syscall_request-Fits p s =
      personified-Fits _ (os.personality s p.header)
        (λ s'. listxattr_reply-Fits (os.listxattr s' (p.syscall == "llistxattr") p.path p.size))

  pub process_mount_inode_request-Fits :
      (mps : List String) (s : S) → Fits (process_mount_inode_request os mps s)
  unfolding process_mount_inode_request
  process_mount_inode_request-Fits mps s = of_inodes (map (os.file_inode s) mps)

  slept-Fits : (n : Option ℕ) → Fits (slept os n)
  unfolding slept taken_as
  slept-Fits none = of_error other_error
  slept-Fits (some n) = of_dropped NsMsg.sleep_response "" refl

  pub process_sleep_request-Fits : (ival : String) → Fits (process_sleep_request os ival)
  unfolding process_sleep_request
  process_sleep_request-Fits ival = slept-Fits (os.atoi ival)
