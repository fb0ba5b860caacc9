-- ===== src/Nsenter/Exchange.antt =====
-- One exchange of sysbox-fs with an agent that it has started (processResponse and SendRequest of
-- nsenter/event.go), and the agent that the handlers of files use.
pub mod Laws
pub mod Files
pub mod Openat2
use sysbox_fs.Prelude.{
  ℕ, String, Bool, true, false, Option, none, some, List, [], ◌∷◌, Result, ok, err, if◌then◌else◌,
}
use sysbox_fs.Prelude.Bytes.{Bytes}
use sysbox_fs.Handler.PassThrough.{FileAgent, FileEvent, NodeInfo}
use sysbox_fs.Nsenter.Message.{
  NsMsg, Payload, nil, Shape, Codec, eio, file_info_shape, number_shape, bytes_shape,
  file_infos_shape, text_shape, mount_info_shape, inodes_shape, getxattr_resp_shape,
  listxattr_resp_shape, uid_shape, gid_shape, openat2_resp_shape, io_error_shape, Wants, decode,
  Taken, dropped, unsupported, into, taken_as,
}
use sysbox_fs.Nsenter.Agent.{Os, Outcome}
use sysbox_fs.Nsenter.Agent.Dispatch.{ServedRequest, process_request, response_of, descriptors_of}

-- What SendRequest ends with: a response, an error of processResponse, or the end of the agent; where
-- the agent sends no message for the descriptors, the receiver waits for one that does not come.
pub data Exchange : Type 0 where
  received : NsMsg → Payload → Exchange
  bad_response agent_died unanswered : Exchange

module _ (codec : Codec) where
  -- The response to openat2 gets the first descriptor received.
  place_fd : NsMsg → List ℕ → Payload → Exchange
  place_fd NsMsg.openat2_response [] p = bad_response
  place_fd NsMsg.openat2_response (fd ∷ fds) p =
      received NsMsg.openat2_response (Payload.openat2_resp fd)
  place_fd msg fds p = received msg p

  taken : NsMsg → codec.Json → List ℕ → Taken → Exchange
  unfolding place_fd decode
  taken msg json fds dropped = received msg (Payload.text "")
  taken msg json fds unsupported = bad_response
  taken msg json fds (into shape) = elim (decode codec shape json) [
    | none ↦ bad_response
    | some p ↦ place_fd msg fds p
  ]

  unfoldable pub process_response : List ℕ → NsMsg → codec.Json → Exchange
  unfolding taken taken_as
  process_response fds msg json = taken msg json fds (taken_as msg)

  -- The descriptors that the parent holds and no payload names.
  unfoldable pub stray_descriptors : List ℕ → NsMsg → List ℕ
  stray_descriptors [] msg = []
  stray_descriptors (fd ∷ fds) NsMsg.openat2_response = fds
  stray_descriptors (fd ∷ fds) msg = fd ∷ fds

module _ {S : Type 0} (os : Os S) (codec : Codec) where
  answered : Option (List ℕ) → Option (NsMsg × codec.Json) → Exchange
  unfolding process_response
  answered fds none = agent_died
  answered none (some response) = unanswered
  answered (some fds) (some (msg, json)) = process_response codec fds msg json

  unfoldable pub exchanged : ServedRequest S → Exchange × S
  unfolding answered descriptors_of response_of
  exchanged x =
      (answered (descriptors_of os codec x.descriptors) (response_of os codec x.outcome), x.state)

  unfoldable pub exchange : NsMsg → Payload → S → Exchange × S
  unfolding exchanged
  exchange msg p s = exchanged (process_request os codec msg (codec.marshal p) s)

  abbrev wants_of : FileEvent → Wants
  wants_of e = record { sysfs = e.remount.mount_sysfs; procfs = e.remount.mount_procfs }

  -- What the pass-through handler takes from a response.
  bytes_from : Exchange × S → Result ℕ Bytes
  bytes_from (received NsMsg.error_response (Payload.io_code c), s) = err c
  bytes_from (received NsMsg.read_file_response (Payload.bytes b), s) = ok b
  bytes_from _ = err eio

  written_from : Exchange × S → Result ℕ S
  written_from (received NsMsg.error_response (Payload.io_code c), s) = err c
  written_from (received msg p, s) = ok s
  written_from (bad_response, s) = err eio
  written_from (agent_died, s) = err eio
  written_from (unanswered, s) = err eio

  unfoldable pub agent_read : S → FileEvent → ℕ → ℕ → Result ℕ Bytes
  unfolding bytes_from exchange
  agent_read s e offset size = bytes_from (
      exchange NsMsg.read_file_request (Payload.read_file_payload e.path offset size (wants_of e))
        s)

  unfoldable pub agent_write : S → FileEvent → ℕ → Bytes → Result ℕ S
  unfolding written_from exchange
  agent_write s e offset content = written_from (
      exchange NsMsg.write_file_request
        (Payload.write_file_payload e.path offset content (wants_of e)) s)
