-- ===== src/Nsenter/Agent/Dispatch.antt =====
-- The agent's side of an exchange (processRequest and Init of nsenter/event.go). The credentials of
-- the process are part of the system that the requests run on.
use sysbox_fs.Prelude.{ℕ, Option, none, some, List, [], ◌∷◌}
use sysbox_fs.Nsenter.Remounts.{other_error, Action}
use sysbox_fs.Nsenter.Message.{
  NsMsg, Payload, nil, io_error, Shape, Codec, lookup_shape, open_file_shape, read_file_shape,
  write_file_shape, read_dir_shape, read_link_shape, setxattr_shape, getxattr_shape,
  removexattr_shape, listxattr_shape, mounts_shape, umounts_shape, mount_inode_shape, chowns_shape,
  sleep_shape, text_shape, openat2_shape, to_wire, decode,
}
use sysbox_fs.Nsenter.Agent.{
  Os, Outcome, replied, request_error, panicked, process_lookup_request, process_open_file_request,
  process_file_read_request, process_file_write_request, process_dir_read_request,
  process_read_link_request,
}
use sysbox_fs.Nsenter.Agent.Calls.{
  serve_mounts, serve_umounts, process_chown_syscall_request, process_setxattr_syscall_request,
  process_getxattr_syscall_request, process_removexattr_syscall_request,
  process_listxattr_syscall_request, process_mount_info_request, process_mount_inode_request,
  process_sleep_request, process_uid_info_request, process_gid_info_request,
  process_openat2_syscall_request,
}

-- A request that is served: its outcome, the descriptors to send (`none` is -1), the state, and what
-- was mounted.
pub record ServedRequest (S : Type 0) : Type 0 where
  pub outcome : Outcome
  pub descriptors : List (Option ℕ)
  pub state : S
  pub actions : List Action

module _ {S : Type 0} (os : Os S) (codec : Codec) where
  abbrev quiet : Outcome × S → ServedRequest S
  quiet (r, s) = record { outcome = r; descriptors = []; state = s; actions = [] }

  abbrev traced : Outcome × S × List Action → ServedRequest S
  traced (r, s, actions) = record { outcome = r; descriptors = []; state = s; actions = actions }

  -- `e.fileDescr` of the request of openat2.
  abbrev with_descriptor : (Outcome × Option ℕ) × S → ServedRequest S
  with_descriptor ((r, fd), s) = record {
    outcome = r;
    descriptors = fd ∷ [];
    state = s;
    actions = [];
  }

  -- A decoded payload and the request that takes it; payloads of other types do not come from Unmarshal.
  unfoldable pub serve_payload : Payload → S → ServedRequest S
  serve_payload (Payload.lookup_payload entry wants) s =
      traced (process_lookup_request os entry wants s)
  serve_payload (Payload.open_file_payload file flags mode wants) s =
      traced (process_open_file_request os file flags mode wants s)
  serve_payload (Payload.read_file_payload file offset len wants) s =
      traced (process_file_read_request os file offset len wants s)
  serve_payload (Payload.write_file_payload file offset content wants) s =
      traced (process_file_write_request os file offset content wants s)
  serve_payload (Payload.read_dir_payload dir wants) s =
      traced (process_dir_read_request os dir wants s)
  serve_payload (Payload.read_link_payload link wants) s =
      traced (process_read_link_request os link wants s)
  serve_payload (Payload.setxattr_payload p) s = quiet (process_setxattr_syscall_request os p s)
  serve_payload (Payload.getxattr_payload p) s = quiet (process_getxattr_syscall_request os p s)
  serve_payload (Payload.removexattr_payload p) s =
      quiet (process_removexattr_syscall_request os p s)
  serve_payload (Payload.listxattr_payload p) s = quiet (process_listxattr_syscall_request os p s)
  serve_payload (Payload.mount_payloads ps) s = quiet (serve_mounts os ps s)
  serve_payload (Payload.umount_payloads ps) s = quiet (serve_umounts os ps s)
  serve_payload (Payload.mount_inode_payload mps) s =
      quiet (process_mount_inode_request os mps s, s)
  serve_payload (Payload.chown_payloads ps) s = quiet (process_chown_syscall_request os ps s)
  serve_payload (Payload.sleep_payload ival) s = quiet (process_sleep_request os ival, s)
  serve_payload (Payload.openat2_payload p) s =
      with_descriptor (process_openat2_syscall_request os p s)
  serve_payload _ s = quiet (panicked, s)

  unfoldable pub serve_decoded : Shape → codec.Json → S → ServedRequest S
  unfolding serve_payload decode
  serve_decoded shape json s = elim (decode codec shape json) [
    | none ↦ quiet (request_error, s)
    | some p ↦ serve_payload p s
  ]

  -- The names of a user and a group are decoded as strings and dropped.
  after_text : codec.Json → S → Outcome → ServedRequest S
  unfolding decode
  after_text json s r = elim (decode codec text_shape json) [
    | none ↦ quiet (request_error, s)
    | some p ↦ quiet (r, s)
  ]

  unfoldable pub process_request : NsMsg → codec.Json → S → ServedRequest S
  unfolding serve_decoded after_text
  process_request NsMsg.lookup_request json s = serve_decoded lookup_shape json s
  process_request NsMsg.open_file_request json s = serve_decoded open_file_shape json s
  process_request NsMsg.read_file_request json s = serve_decoded read_file_shape json s
  process_request NsMsg.write_file_request json s = serve_decoded write_file_shape json s
  process_request NsMsg.read_dir_request json s = serve_decoded read_dir_shape json s
  process_request NsMsg.read_link_request json s = serve_decoded read_link_shape json s
  process_request NsMsg.setxattr_request json s = serve_decoded setxattr_shape json s
  process_request NsMsg.getxattr_request json s = serve_decoded getxattr_shape json s
  process_request NsMsg.removexattr_request json s = serve_decoded removexattr_shape json s
  process_request NsMsg.listxattr_request json s = serve_decoded listxattr_shape json s
  process_request NsMsg.mount_syscall_request json s = serve_decoded mounts_shape json s
  process_request NsMsg.umount_syscall_request json s = serve_decoded umounts_shape json s
  process_request NsMsg.mount_info_request json s = quiet (process_mount_info_request os s, s)
  process_request NsMsg.mount_inode_request json s = serve_decoded mount_inode_shape json s
  process_request NsMsg.chown_syscall_request json s = serve_decoded chowns_shape json s
  process_request NsMsg.sleep_request json s = serve_decoded sleep_shape json s
  process_request NsMsg.uid_info_request json s =
      after_text json s (process_uid_info_request os nil s)
  process_request NsMsg.gid_info_request json s =
      after_text json s (process_gid_info_request os nil s)
  process_request NsMsg.openat2_request json s = serve_decoded openat2_shape json s
  process_request _ json s =
      quiet (replied NsMsg.error_response (Payload.text "Unsupported request"), s)

  -- A -1 among the descriptors makes Sendmsg fail; its error is dropped where there is a response.
  sendable : List (Option ℕ) → Option (List ℕ)
  sendable [] = some []
  sendable (none ∷ fds) = none
  sendable (some fd ∷ fds) = elim (sendable fds) [ none ↦ none | some rest ↦ some (fd ∷ rest) ]

  reply_of : Outcome → Option (NsMsg × Payload)
  reply_of (replied msg p) = some (msg, p)
  reply_of request_error = some (NsMsg.error_response, io_error other_error)
  reply_of panicked = none

  encoded : NsMsg → Option Payload → Option (NsMsg × codec.Json)
  encoded msg none = none
  encoded msg (some p) = some (msg, codec.marshal p)

  -- What Init puts on the socket behind the descriptors; `none` is the end of the agent without a
  -- response.
  unfoldable pub response_of : Outcome → Option (NsMsg × codec.Json)
  unfolding reply_of encoded to_wire
  response_of r = elim (reply_of r) [ none ↦ none | some (msg, p) ↦ encoded msg (to_wire p) ]

  unfoldable pub descriptors_of : List (Option ℕ) → Option (List ℕ)
  unfolding sendable
  descriptors_of fds = sendable fds
