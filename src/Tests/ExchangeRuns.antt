-- ===== src/Tests/ExchangeRuns.antt =====
-- An agent on a container with one file, and messages that are sendable as they are.
use sysbox_fs.Prelude.{
  ◌≡◌, refl, Bool, true, false, Option, none, some, ok, err, [], ◌∷◌, ◌++◌, take, drop, arith, ◌==◌,
  string_eq, if◌then◌else◌,
}
use sysbox_fs.Prelude.Bytes.{Bytes}
use sysbox_fs.Text.{has_prefix}
use sysbox_fs.Handler.PassThrough.{FileEvent, event_at, all_nss}
use sysbox_fs.Nsenter.Remounts.{
  path_error, bare_errno, read_only, MountReplies, made_dir, mounted, removed_all, cleanup,
  process_payload_mounts,
}
use sysbox_fs.Nsenter.Remounts.Laws.{
  process_payload_mounts-clean, process_payload_mounts-dev, left_dirs, left_mounts,
}
use sysbox_fs.Nsenter.Message.{
  NsMsg, Payload, nil, number, raw_error, io_code, Shape, number_shape, io_error_shape, Codec,
  shape_of, IsJson, decode, read_file_payload, Wants, Openat2Payload, openat2_payload, code_of,
}
use sysbox_fs.Nsenter.Agent.{Os, at_eof}
use sysbox_fs.Nsenter.Agent.Dispatch.{serve_payload}
use sysbox_fs.Nsenter.Exchange.{exchange, agent_read, received, unanswered}
use sysbox_fs.Nsenter.Exchange.Laws.{
  request_for, delivered, exchange-delivered, read_link-error_lost,
}
use sysbox_fs.Nsenter.Exchange.Files.{agent_read-directly, numbered, read_directly}
use sysbox_fs.Nsenter.Send.{
  SendStep, child_succeeds, set_passcred, send_request, run_body, nsenter_started, nsenter_ended,
  parent_opened, parent_closed, child_opened,
}
use sysbox_fs.Nsenter.Send.Laws.{
  count, is_start, is_end, is_parent_open, is_parent_close, is_child_open, is_child_close,
  send_request-balanced,
}
use sysbox_fs.Nsenter.Exchange.Openat2.{openat2-unanswered}

Shape-discrete : Discrete (Option Shape)
Shape-discrete = hlevel

abbrev is_nil : Payload → Bool
is_nil nil = true
is_nil _ = false

-- A value is decoded if it has the type asked for, and a *os.PathError is an IOerror without fields.
abbrev otherwise : Shape → Payload → Option Payload
otherwise io_error_shape (raw_error (path_error e)) = some (io_code 0)
otherwise _ _ = none

abbrev zero_of : Shape → Payload
zero_of number_shape = number 0
zero_of _ = nil

abbrev chosen : (shape : Shape) (p : Payload) → Dec (shape_of p ≡ some shape) → Option Payload
chosen shape p (yes h) = some p
chosen shape p (no n) = otherwise shape p

abbrev plain : Codec
plain = record {
  Json = Payload;
  is_null = is_nil;
  marshal = λ p. p;
  unmarshal = λ shape p. chosen shape p (Shape-discrete (shape_of p) (some shape));
  zero_value = zero_of;
}

chosen-own :
    (shape : Shape) (p : Payload) (d : Dec (shape_of p ≡ some shape))
    → shape_of p ≡ some shape
    → chosen shape p d ≡ some p
chosen-own shape p (yes h) e = refl
chosen-own shape p (no n) e = absurd (n e)

chosen-other :
    (shape : Shape) (p : Payload) (d : Dec (shape_of p ≡ some shape))
    → shape_of p ≡ none
    → chosen shape p d ≡ otherwise shape p
chosen-other shape p (yes h) e = absurd (ground arith)
chosen-other shape p (no n) e = refl

typed-is_nil : (p : Payload) (shape : Shape) → shape_of p ≡ some shape → is_nil p ≡ false
unfolding shape_of
typed-is_nil nil shape e = absurd (ground arith)
typed-is_nil _ shape e = refl

plain-round_trip :
    (shape : Shape) (p : Payload) → shape_of p ≡ some shape → decode plain shape p ≡ some p
unfolding decode
plain-round_trip shape p e =
    rw (typed-is_nil p shape e) (chosen-own shape p (Shape-discrete (shape_of p) (some shape)) e)

plain-IsJson : IsJson plain
unfolding decode shape_of
plain-IsJson = record {
  round_trip = plain-round_trip;
  null_number = refl;
  unknown_fields = λ e.
      chosen-other io_error_shape (raw_error (path_error e))
        (Shape-discrete none (some io_error_shape)) refl;
}

-- A container whose files all have the same content; nothing can be mounted but procfs on /tmp.
abbrev mounts_done : MountReplies
mounts_done = record {
  sysfs_dir = err read_only;
  sysfs_mount = some (bare_errno 16);
  procfs_dir = ok "/.sysbox-procfs-1";
  procfs_mount = none;
}

abbrev one_file : Os Bytes
one_file = record {
  replies = λ s. mounts_done;
  atoi = λ t. some 0;
  lstat = λ s path. err (path_error (some 2));
  open_file = λ s path flags mode. ok s;
  read_at = λ s path len offset. (take len (drop offset s), at_eof);
  write_at = λ s path content offset. (none, take offset s ++ content);
  read_dir = λ s path. ok [];
  read_link = λ s path. err (path_error (some 13));
  kernel = record { mount = λ s p. err 1; unmount = λ s t flags. err 22 };
  personality = λ s header. if header.cwd == "/gone" then (some (bare_errno 2), s) else (none, s);
  chown = λ s path uid gid. ok s;
  setxattr = λ s l path name val flags. ok s;
  getxattr = λ s l path name size. err (bare_errno 61);
  removexattr = λ s l path name. ok s;
  listxattr = λ s l path size. ok ([], 0);
  extract_mount_info = λ s. ok [];
  file_inode = λ s path. 0;
  user_uid = λ s name. none;
  group_gid = λ s name. none;
  statfs_type = λ s path. none;
  openat2 = λ s path flags mode resolve. err (bare_errno 13);
}

abbrev proc_wants : Wants
proc_wants = record { sysfs = false; procfs = true }

abbrev content : Bytes
content = 104 ∷ 105 ∷ 10 ∷ []

exchange-delivered_example :
    exchange one_file plain NsMsg.read_file_request
      (read_file_payload "/proc/x" 1 10 proc_wants)
      content
    ≡ (
      delivered
          (serve_payload one_file plain
            (read_file_payload "/proc/x" 1 10 proc_wants)
            content).outcome,
      (serve_payload one_file plain (read_file_payload "/proc/x" 1 10 proc_wants) content).state,
    )
unfolding request_for
exchange-delivered_example =
    exchange-delivered one_file plain plain-IsJson (read_file_payload "/proc/x" 1 10 proc_wants)
      content refl

abbrev event : FileEvent
event = event_at "/proc/x" all_nss

agent_read-directly_example :
    agent_read one_file plain content event 1 10
    ≡ numbered (read_directly one_file event 1 10 content)
agent_read-directly_example = agent_read-directly one_file plain plain-IsJson content event 1 10

process_payload_mounts-clean_example :
    (left_dirs (
        (made_dir "/.sysbox-procfs-1" ∷ mounted "/.sysbox-procfs-1" ∷ [])
        ++ cleanup (record { sysfs_mountpoint = ""; procfs_mountpoint = "/.sysbox-procfs-1" }))
      ≡ [])
    × (left_mounts (
          (made_dir "/.sysbox-procfs-1" ∷ mounted "/.sysbox-procfs-1" ∷ [])
          ++ cleanup (record { sysfs_mountpoint = ""; procfs_mountpoint = "/.sysbox-procfs-1" }))
        ≡ [])
unfolding process_payload_mounts has_prefix
process_payload_mounts-clean_example =
    process_payload_mounts-clean false true mounts_done
      (record { sysfs_mountpoint = ""; procfs_mountpoint = "/.sysbox-procfs-1" })
      (made_dir "/.sysbox-procfs-1" ∷ mounted "/.sysbox-procfs-1" ∷ []) tt refl refl

-- The mount of sysfs on /dev is refused: /dev is emptied.
dev_emptied :
    process_payload_mounts true false mounts_done ≡ (err (bare_errno 16), removed_all "/dev" ∷ [])
dev_emptied = process_payload_mounts-dev false mounts_done (bare_errno 16) refl refl

lost_link_error :
    (exchange one_file plain NsMsg.read_link_request
      (Payload.read_link_payload "/etc/x" (record { sysfs = false; procfs = false }))
      content).0
    ≡ received NsMsg.error_response (io_code 0)
unfolding process_payload_mounts
lost_link_error =
    read_link-error_lost one_file plain plain-IsJson "/etc/x"
      (record { sysfs = false; procfs = false }) content
      (record { sysfs_mountpoint = ""; procfs_mountpoint = "" }) [] (some 13) refl refl

abbrev gone : Openat2Payload
gone = record {
  header = record { root = "/"; cwd = "/gone"; capabilities = (0, 0) };
  path = "/proc/x";
  flags = 0;
  mode = 0;
  resolve = 0;
  check_for_sysboxfs = false;
}

no_answer :
    (exchange one_file plain NsMsg.openat2_request (openat2_payload gone) content).0 ≡ unanswered
unfolding code_of
no_answer =
    openat2-unanswered one_file plain plain-IsJson gone content content (bare_errno 2) 2 refl refl
      refl

abbrev child_fails : SendStep → Bool
child_fails child_succeeds = true
child_fails _ = false

-- The first child ends with an error: the reaper is asked, and the lock is given back.
send_request-balanced_example :
    (count is_start (send_request child_fails false).1 ≡ 1)
    × (count is_end (send_request child_fails false).1 ≡ 1)
    × (count is_parent_open (send_request child_fails false).1 ≡ 1)
    × (count is_parent_close (send_request child_fails false).1 ≡ 1)
    × (count is_child_open (send_request child_fails false).1 ≡ 1)
    × (count is_child_close (send_request child_fails false).1 ≡ 1)
send_request-balanced_example = send_request-balanced child_fails false

abbrev option_fails : SendStep → Bool
option_fails set_passcred = true
option_fails _ = false

-- The child's end of the pair stays open.
child_end_left : send_request option_fails false ≡ (
  some set_passcred,
  nsenter_started ∷ parent_opened ∷ child_opened ∷ parent_closed ∷ nsenter_ended ∷ [],
)
unfolding send_request run_body
child_end_left = refl
