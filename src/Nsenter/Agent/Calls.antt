-- ===== src/Nsenter/Agent/Calls.antt =====
-- The requests that make one system call, or a list of them (nsenter/event.go).
pub mod Replies
use sysbox_fs.Prelude.{
  ℕ, String, Bool, true, false, not, Option, none, some, List, [], ◌∷◌, map, ◌==◌, nat_eq,
  string_eq, Result, ok, err, if◌then◌else◌,
}
use sysbox_fs.Prelude.Bytes.{Bytes}
use sysbox_fs.Seccomp.Context.{MountPayload}
use sysbox_fs.Nsenter.Mounts.{
  AgentReply, done, failed_with, no_element, process_mount_syscall_request,
  process_umount_syscall_request,
}
use sysbox_fs.Nsenter.Remounts.{GoError, bare_errno, other_error}
use sysbox_fs.Nsenter.Message.{
  NsMsg, Header, ChownPayload, XattrPayload, Openat2Payload, Payload, nil, io_error,
}
use sysbox_fs.Nsenter.Agent.{Os, Outcome, replied, request_error, panicked, error_reply}

module _ {S : Type 0} (os : Os S) where
  agent_outcome : NsMsg → AgentReply × S → Outcome × S
  agent_outcome msg (done, s) = (replied msg (Payload.text ""), s)
  agent_outcome msg (failed_with e, s) = (error_reply (bare_errno e), s)
  agent_outcome msg (no_element, s) = (panicked, s)

  header_of : Option (String × String × ℕ × ℕ) → Header
  header_of none = record { root = ""; cwd = ""; capabilities = (0, 0) }
  header_of (some (root, cwd, c0, c1)) = record { root = root; cwd = cwd; capabilities = (c0, c1) }

  -- AdjustPersonality and what follows it.
  personified : (S → Outcome × S) → Option GoError × S → Outcome × S
  personified body (some e, s) = (error_reply e, s)
  personified body (none, s) = body s

  as_caller : Header → S → (S → Outcome × S) → Outcome × S
  unfolding personified
  as_caller header s body = personified body (os.personality s header)

  mounts_of : List MountPayload → S → Outcome × S
  unfolding agent_outcome
  mounts_of ps s =
      agent_outcome NsMsg.mount_syscall_response (process_mount_syscall_request os.kernel none ps s)

  unfoldable pub serve_mounts : List MountPayload → S → Outcome × S
  unfolding mounts_of as_caller header_of
  serve_mounts [] s = (panicked, s)
  serve_mounts (p ∷ ps) s =
      if p.fs_type == "overlay"
      then as_caller (header_of p.header) s (mounts_of (p ∷ ps))
      else mounts_of (p ∷ ps) s

  unfoldable pub serve_umounts : List MountPayload → S → Outcome × S
  unfolding agent_outcome
  serve_umounts ps s =
      agent_outcome NsMsg.umount_syscall_response (process_umount_syscall_request os.kernel ps s)

  unfoldable pub process_chown_syscall_request : List ChownPayload → S → Outcome × S
  process_chown_syscall_request [] s = (replied NsMsg.chown_syscall_response (Payload.text ""), s)
  process_chown_syscall_request (p ∷ ps) s = elim (os.chown s p.target p.uid p.gid) [
    | err e ↦ (error_reply e, s)
    | ok s' ↦ process_chown_syscall_request ps s'
  ]

  call_reply : NsMsg → S → Result GoError S → Outcome × S
  call_reply msg s (err e) = (error_reply e, s)
  call_reply msg s (ok s') = (replied msg (Payload.text ""), s')

  unfoldable pub process_setxattr_syscall_request : XattrPayload → S → Outcome × S
  unfolding call_reply
  process_setxattr_syscall_request p s =
      call_reply NsMsg.setxattr_response s
        (os.setxattr s (p.syscall == "lsetxattr") p.path p.name p.val p.flags)

  unfoldable pub process_removexattr_syscall_request : XattrPayload → S → Outcome × S
  unfolding call_reply
  process_removexattr_syscall_request p s =
      call_reply NsMsg.removexattr_response s
        (os.removexattr s (p.syscall == "lremovexattr") p.path p.name)

  getxattr_reply : Result GoError (Bytes × ℕ) → Outcome
  getxattr_reply (err e) = error_reply e
  getxattr_reply (ok (val, size)) = replied NsMsg.getxattr_response (Payload.getxattr_resp val size)

  unfoldable pub process_getxattr_syscall_request : XattrPayload → S → Outcome × S
  unfolding as_caller getxattr_reply
  process_getxattr_syscall_request p s =
      as_caller p.header s (λ s'.
        (getxattr_reply (os.getxattr s' (p.syscall == "lgetxattr") p.path p.name p.size), s'))

  listxattr_reply : Result GoError (Bytes × ℕ) → Outcome
  listxattr_reply (err e) = error_reply e
  listxattr_reply (ok (val, size)) =
      replied NsMsg.listxattr_response (Payload.listxattr_resp val size)

  unfoldable pub process_listxattr_syscall_request : XattrPayload → S → Outcome × S
  unfolding as_caller listxattr_reply
  process_listxattr_syscall_request p s =
      as_caller p.header s
        (λ s'. (listxattr_reply (os.listxattr s' (p.syscall == "llistxattr") p.path p.size), s'))

  unfoldable pub process_mount_info_request : S → Outcome
  process_mount_info_request s = elim (os.extract_mount_info s) [
    | err e ↦ error_reply e
    | ok info ↦ replied NsMsg.mount_info_response (Payload.mount_info_resp info)
  ]

  unfoldable pub process_mount_inode_request : List String → S → Outcome
  process_mount_inode_request mps s =
      replied NsMsg.mount_inode_response (Payload.inodes_resp (map (os.file_inode s) mps))

  slept : Option ℕ → Outcome
  slept none = error_reply other_error
  slept (some n) = replied NsMsg.sleep_response (Payload.text "")

  unfoldable pub process_sleep_request : String → Outcome
  unfolding slept
  process_sleep_request ival = slept (os.atoi ival)

  -- The type assertion on the payload of the request panics unless the request carries one of its type;
  -- a success is sendable under the type of the response to a sleep.
  unfoldable pub process_uid_info_request : Payload → S → Outcome
  process_uid_info_request (Payload.user_payload user) s = elim (os.user_uid s user) [
    | none ↦ error_reply other_error
    | some uid ↦ replied NsMsg.sleep_response (Payload.uid_resp uid)
  ]
  process_uid_info_request _ s = panicked

  unfoldable pub process_gid_info_request : Payload → S → Outcome
  process_gid_info_request (Payload.group_payload group) s = elim (os.group_gid s group) [
    | none ↦ error_reply other_error
    | some gid ↦ replied NsMsg.sleep_response (Payload.gid_resp gid)
  ]
  process_gid_info_request _ s = panicked

  -- unix.FUSE_SUPER_MAGIC.
  abbrev fuse_super_magic : ℕ
  fuse_super_magic = 1702057286

  -- The descriptor to send; `none` is -1.
  opened2 : S → Result GoError (ℕ × S) → (Outcome × Option ℕ) × S
  opened2 s (err e) = ((error_reply e, some 0), s)
  opened2 s (ok (fd, s')) = ((replied NsMsg.openat2_response nil, some fd), s')

  openat2_as : Openat2Payload → Option GoError × S → (Outcome × Option ℕ) × S
  unfolding opened2
  openat2_as p (some e, s) = ((error_reply e, none), s)
  openat2_as p (none, s) = opened2 s (os.openat2 s p.path p.flags p.mode p.resolve)

  is_sysboxfs : Openat2Payload → S → Bool
  is_sysboxfs p s = elim (os.statfs_type s p.path) [ none ↦ false | some t ↦ t == fuse_super_magic ]

  unfoldable pub process_openat2_syscall_request : Openat2Payload → S → (Outcome × Option ℕ) × S
  unfolding openat2_as is_sysboxfs
  process_openat2_syscall_request p s =
      if p.check_for_sysboxfs
      then if is_sysboxfs p s
        then openat2_as p (os.personality s p.header)
        else ((error_reply other_error, none), s)
      else openat2_as p (os.personality s p.header)
