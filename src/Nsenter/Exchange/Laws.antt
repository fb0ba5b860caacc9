-- ===== src/Nsenter/Exchange/Laws.antt =====
-- What sysbox-fs receives of the replies of its agent.
use sysbox_fs.Prelude.{
  ℕ, ◌≡◌, refl, ap, ◌∙◌, String, Bool, true, false, Option, none, some, List, [], ok, err, arith,
  Option-cases, inl, inr,
}
use sysbox_fs.Nsenter.Remounts.{
  path_error, Action, PayloadMounts, process_payload_mounts, replace_procfs_and_sysfs_paths,
}
use sysbox_fs.Nsenter.Message.{
  NsMsg, Payload, nil, read_link_payload, openat2_payload, user_payload, group_payload,
  mount_info_resp, uid_resp, gid_resp, openat2_resp, lookup_payload, read_dir_payload,
  open_file_payload, read_file_payload, write_file_payload, mount_payloads, umount_payloads,
  chown_payloads, setxattr_payload, getxattr_payload, removexattr_payload, listxattr_payload,
  mount_inode_payload, sleep_payload, file_info, file_infos, number, bytes, text, inodes_resp,
  getxattr_resp, listxattr_resp, io_error, io_code, raw_error, Shape, lookup_shape, read_dir_shape,
  open_file_shape, read_file_shape, write_file_shape, mounts_shape, umounts_shape, chowns_shape,
  setxattr_shape, getxattr_shape, removexattr_shape, listxattr_shape, mount_inode_shape,
  sleep_shape, file_info_shape, file_infos_shape, bytes_shape, inodes_shape, getxattr_resp_shape,
  listxattr_resp_shape, io_error_shape, read_link_shape, text_shape, Codec, decode, code_of, eio,
  shape_of, IsJson, taken_as, Wants,
}
use sysbox_fs.Nsenter.Agent.{
  Os, Outcome, replied, request_error, panicked, process_read_link_request,
}
use sysbox_fs.Nsenter.Agent.Calls.Replies.{
  process_chown_syscall_request-Fits, process_getxattr_syscall_request-Fits,
  process_listxattr_syscall_request-Fits, process_mount_inode_request-Fits,
  process_removexattr_syscall_request-Fits, process_setxattr_syscall_request-Fits,
  process_sleep_request-Fits, serve_mounts-Fits, serve_umounts-Fits,
}
use sysbox_fs.Nsenter.Agent.Replies.{
  process_dir_read_request-Fits, process_file_read_request-Fits, process_file_write_request-Fits,
  process_lookup_request-Fits, process_open_file_request-Fits, Fits, of_error, of_panic, of_open,
  of_write, of_dropped, of_lookup, of_read, of_dir, of_inodes, of_getxattr, of_listxattr,
}
use sysbox_fs.Nsenter.Agent.Calls.{process_uid_info_request, process_gid_info_request}
use sysbox_fs.Nsenter.Agent.Dispatch.{ServedRequest, serve_payload, serve_decoded, process_request}
use sysbox_fs.Nsenter.Exchange.{Exchange, received, agent_died, exchanged, exchange}

-- The requests of the handlers, but for links, names of users and groups, and openat2.
unfoldable pub request_for : Payload → NsMsg
request_for (lookup_payload e w) = NsMsg.lookup_request
request_for (read_dir_payload d w) = NsMsg.read_dir_request
request_for (open_file_payload f fl m w) = NsMsg.open_file_request
request_for (read_file_payload f o l w) = NsMsg.read_file_request
request_for (write_file_payload f o c w) = NsMsg.write_file_request
request_for (mount_payloads ps) = NsMsg.mount_syscall_request
request_for (umount_payloads ps) = NsMsg.umount_syscall_request
request_for (chown_payloads ps) = NsMsg.chown_syscall_request
request_for (setxattr_payload p) = NsMsg.setxattr_request
request_for (getxattr_payload p) = NsMsg.getxattr_request
request_for (removexattr_payload p) = NsMsg.removexattr_request
request_for (listxattr_payload p) = NsMsg.listxattr_request
request_for (mount_inode_payload mps) = NsMsg.mount_inode_request
request_for (sleep_payload i) = NsMsg.sleep_request
request_for _ = NsMsg.error_response

abbrev pub is_plain : Payload → Bool
is_plain p = elim (request_for p) [ NsMsg.error_response ↦ false | _ ↦ true ]

-- A payload as it is meant to be received: the responses that say no more than that the request is done
-- come with none, but for an opened file.
abbrev pub payload_seen : Payload → NsMsg → Payload
payload_seen nil NsMsg.open_file_response = number 0
payload_seen nil _ = text ""
payload_seen (text t) _ = text ""
payload_seen p _ = p

-- A reply as sysbox-fs is meant to receive it: the payload, or the number of the error.
abbrev pub delivered : Outcome → Exchange
delivered (replied msg (io_error e)) = elim (code_of e) [
  | none ↦ agent_died
  | some c ↦ received msg (io_code c)
]
delivered (replied msg p) = received msg (payload_seen p msg)
delivered request_error = received NsMsg.error_response (io_code eio)
delivered panicked = agent_died

module _ {S : Type 0} (os : Os S) (codec : Codec) (json : IsJson codec) where
  exchanged_reply-delivered :
      (r : Outcome) (s : S) (actions : List Action)
      → Fits r
      → (exchanged os codec
          (record { outcome = r; descriptors = []; state = s; actions = actions })).0
        ≡ delivered r
  unfolding exchanged shape_of taken_as
  exchanged_reply-delivered _ s actions (of_error e) = elim (Option-cases (code_of e)) [
    | inl no_number ↦ ground arith
    | inr (c, numbered) ↦ ground (arith, json.round_trip io_error_shape (io_code c) refl)
  ]
  exchanged_reply-delivered _ s actions of_panic = refl
  exchanged_reply-delivered _ s actions of_open = ground (arith, json.null_number)
  exchanged_reply-delivered _ s actions of_write = refl
  exchanged_reply-delivered _ s actions (of_dropped msg t d) = ground arith
  exchanged_reply-delivered _ s actions (of_lookup i) =
      ground (arith, json.round_trip file_info_shape (file_info i) refl)
  exchanged_reply-delivered _ s actions (of_read b) =
      ground (arith, json.round_trip bytes_shape (bytes b) refl)
  exchanged_reply-delivered _ s actions (of_dir is) =
      ground (arith, json.round_trip file_infos_shape (file_infos is) refl)
  exchanged_reply-delivered _ s actions (of_inodes ns) =
      ground (arith, json.round_trip inodes_shape (inodes_resp ns) refl)
  exchanged_reply-delivered _ s actions (of_getxattr v n) =
      ground (arith, json.round_trip getxattr_resp_shape (getxattr_resp v n) refl)
  exchanged_reply-delivered _ s actions (of_listxattr v n) =
      ground (arith, json.round_trip listxattr_resp_shape (listxattr_resp v n) refl)

  exchanged-delivered :
      (x : ServedRequest S)
      → x.descriptors ≡ []
      → Fits x.outcome
      → exchanged os codec x ≡ (delivered x.outcome, x.state)
  unfolding exchanged
  exchanged-delivered x none_sent f =
      ap (λ fds. exchanged os codec (record x { descriptors = fds })) none_sent
      ∙ ap (λ e. (e, x.state)) (exchanged_reply-delivered x.outcome x.state x.actions f)

  deliver :
      (p : Payload) (shape : Shape) (s : S)
      → decode codec shape (codec.marshal p) ≡ some p
      → (serve_payload os codec p s).descriptors ≡ []
      → Fits (serve_payload os codec p s).outcome
      → exchanged os codec (serve_decoded os codec shape (codec.marshal p) s)
        ≡ (delivered (serve_payload os codec p s).outcome, (serve_payload os codec p s).state)
  unfolding serve_decoded
  deliver p shape s decoded none_sent f =
      rw (decoded, serve_decoded) (exchanged-delivered (serve_payload os codec p s) none_sent f)

  -- With a JSON library that decodes each value into its own type as it was, one exchange with the
  -- agent, for a request of the handlers other than those for links, names of users and groups, the
  -- mountinfo and openat2, brings what serving the request in the container gives: its reply, the
  -- number of its error, or the end of the agent, whatever the system answers there; and leaves the
  -- state that serving it leaves.
  pub exchange-delivered :
      (p : Payload) (s : S)
      → is_plain p ≡ true
      → exchange os codec (request_for p) p s
        ≡ (delivered (serve_payload os codec p s).outcome, (serve_payload os codec p s).state)
  unfolding exchange process_request serve_payload request_for shape_of
  exchange-delivered (lookup_payload e w) s h =
      deliver (lookup_payload e w) lookup_shape s
        (json.round_trip lookup_shape (lookup_payload e w) refl) refl
        (process_lookup_request-Fits os e w s)
  exchange-delivered (read_dir_payload d w) s h =
      deliver (read_dir_payload d w) read_dir_shape s
        (json.round_trip read_dir_shape (read_dir_payload d w) refl) refl
        (process_dir_read_request-Fits os d w s)
  exchange-delivered (open_file_payload f fl m w) s h =
      deliver (open_file_payload f fl m w) open_file_shape s
        (json.round_trip open_file_shape (open_file_payload f fl m w) refl) refl
        (process_open_file_request-Fits os f fl m w s)
  exchange-delivered (read_file_payload f o l w) s h =
      deliver (read_file_payload f o l w) read_file_shape s
        (json.round_trip read_file_shape (read_file_payload f o l w) refl) refl
        (process_file_read_request-Fits os f o l w s)
  exchange-delivered (write_file_payload f o c w) s h =
      deliver (write_file_payload f o c w) write_file_shape s
        (json.round_trip write_file_shape (write_file_payload f o c w) refl) refl
        (process_file_write_request-Fits os f o c w s)
  exchange-delivered (mount_payloads ps) s h =
      deliver (mount_payloads ps) mounts_shape s
        (json.round_trip mounts_shape (mount_payloads ps) refl) refl (serve_mounts-Fits os ps s)
  exchange-delivered (umount_payloads ps) s h =
      deliver (umount_payloads ps) umounts_shape s
        (json.round_trip umounts_shape (umount_payloads ps) refl) refl (serve_umounts-Fits os ps s)
  exchange-delivered (chown_payloads ps) s h =
      deliver (chown_payloads ps) chowns_shape s
        (json.round_trip chowns_shape (chown_payloads ps) refl) refl
        (process_chown_syscall_request-Fits os ps s)
  exchange-delivered (setxattr_payload p) s h =
      deliver (setxattr_payload p) setxattr_shape s
        (json.round_trip setxattr_shape (setxattr_payload p) refl) refl
        (process_setxattr_syscall_request-Fits os p s)
  exchange-delivered (getxattr_payload p) s h =
      deliver (getxattr_payload p) getxattr_shape s
        (json.round_trip getxattr_shape (getxattr_payload p) refl) refl
        (process_getxattr_syscall_request-Fits os p s)
  exchange-delivered (removexattr_payload p) s h =
      deliver (removexattr_payload p) removexattr_shape s
        (json.round_trip removexattr_shape (removexattr_payload p) refl) refl
        (process_removexattr_syscall_request-Fits os p s)
  exchange-delivered (listxattr_payload p) s h =
      deliver (listxattr_payload p) listxattr_shape s
        (json.round_trip listxattr_shape (listxattr_payload p) refl) refl
        (process_listxattr_syscall_request-Fits os p s)
  exchange-delivered (mount_inode_payload mps) s h =
      deliver (mount_inode_payload mps) mount_inode_shape s
        (json.round_trip mount_inode_shape (mount_inode_payload mps) refl) refl
        (process_mount_inode_request-Fits os mps s)
  exchange-delivered (sleep_payload i) s h =
      deliver (sleep_payload i) sleep_shape s (json.round_trip sleep_shape (sleep_payload i) refl)
        refl (process_sleep_request-Fits os i)
  exchange-delivered nil s h = absurd (ground arith)
  exchange-delivered (read_link_payload l w) s h = absurd (ground arith)
  exchange-delivered (openat2_payload p) s h = absurd (ground arith)
  exchange-delivered (user_payload u) s h = absurd (ground arith)
  exchange-delivered (group_payload g) s h = absurd (ground arith)
  exchange-delivered (file_info i) s h = absurd (ground arith)
  exchange-delivered (file_infos is) s h = absurd (ground arith)
  exchange-delivered (number n) s h = absurd (ground arith)
  exchange-delivered (bytes b) s h = absurd (ground arith)
  exchange-delivered (text t) s h = absurd (ground arith)
  exchange-delivered (mount_info_resp b) s h = absurd (ground arith)
  exchange-delivered (inodes_resp ns) s h = absurd (ground arith)
  exchange-delivered (getxattr_resp v n) s h = absurd (ground arith)
  exchange-delivered (listxattr_resp v n) s h = absurd (ground arith)
  exchange-delivered (uid_resp u) s h = absurd (ground arith)
  exchange-delivered (gid_resp g) s h = absurd (ground arith)
  exchange-delivered (openat2_resp fd) s h = absurd (ground arith)
  exchange-delivered (io_error e) s h = absurd (ground arith)
  exchange-delivered (io_code c) s h = absurd (ground arith)
  exchange-delivered (raw_error e) s h = absurd (ground arith)

  -- An *os.PathError of a link comes with the number 0 in place of its own.
  pub read_link-error_lost :
      (link : String) (w : Wants) (s : S) (pmi : PayloadMounts) (actions : List Action)
      (e : Option ℕ)
      → process_payload_mounts w.sysfs w.procfs (os.replies s) ≡ (ok pmi, actions)
      → os.read_link s (replace_procfs_and_sysfs_paths link pmi) ≡ err (path_error e)
      → (exchange os codec NsMsg.read_link_request (read_link_payload link w) s).0
        ≡ received NsMsg.error_response (io_code 0)
  unfolding exchange process_request serve_payload serve_decoded process_read_link_request shape_of
      exchanged taken_as
  read_link-error_lost link w s pmi actions e mounts failed = ground (
    arith,
    json.round_trip read_link_shape (read_link_payload link w) refl,
    json.unknown_fields e,
  )

  -- A request for the ID of a user or of a group ends the agent.
  pub id_request-agent_died :
      (name : String) (s : S)
      → ((exchange os codec NsMsg.uid_info_request (text name) s).0 ≡ agent_died)
        × ((exchange os codec NsMsg.gid_info_request (text name) s).0 ≡ agent_died)
  unfolding exchange process_request process_uid_info_request process_gid_info_request shape_of
      exchanged taken_as
  id_request-agent_died name s = (
    ground (arith, json.round_trip text_shape (text name) refl),
    ground (arith, json.round_trip text_shape (text name) refl),
  )
