-- ===== src/Nsenter/Agent.antt =====
-- The requests that the agent serves in the namespaces of a process (nsenter/event.go). The operating
-- system there is a parameter, on a state of type S.
pub mod Replies
pub mod Calls
pub mod Dispatch
use sysbox_fs.Prelude.{
  ℕ, zero, suc, String, Bool, true, false, ◌&&◌, not, Option, none, some, List, [], ◌∷◌, ◌++◌, map,
  ◌==◌, nat_eq, string_eq, take, length, Result, ok, err, if◌then◌else◌,
}
use sysbox_fs.Prelude.Bytes.{Bytes}
use sysbox_fs.Fuse.Node.{DomainFileInfo}
use sysbox_fs.Seccomp.Context.{MountPayload}
use sysbox_fs.Nsenter.Mounts.{Kernel}
use sysbox_fs.Nsenter.Remounts.{
  GoError, other_error, MountReplies, Action, PayloadMounts, cleanup, process_payload_mounts,
  replace_procfs_and_sysfs_paths,
}
use sysbox_fs.Nsenter.Message.{NsMsg, Header, Wants, Payload, nil, io_error, raw_error}

-- What io.ReaderAt answers after its bytes.
pub data ReadEnd : Type 0 where
  all_read at_eof : ReadEnd
  read_error : GoError → ReadEnd

-- The calls that the requests make. A `none` error is success; `atoi` is strconv.Atoi of a number that
-- is not negative; `personality` is AdjustPersonality on the agent itself.
pub record Os (S : Type 0) : Type 0 where
  pub replies : S → MountReplies
  pub atoi : String → Option ℕ
  pub lstat : S → String → Result GoError DomainFileInfo
  pub open_file : S → String → ℕ → ℕ → Result GoError S
  pub read_at : S → String → ℕ → ℕ → Bytes × ReadEnd
  pub write_at : S → String → Bytes → ℕ → Option GoError × S
  pub read_dir : S → String → Result GoError (List DomainFileInfo)
  pub read_link : S → String → Result GoError String
  pub kernel : Kernel S
  pub personality : S → Header → Option GoError × S
  pub chown : S → String → ℕ → ℕ → Result GoError S
  pub setxattr : S → Bool → String → String → Bytes → ℕ → Result GoError S
  pub getxattr : S → Bool → String → String → ℕ → Result GoError (Bytes × ℕ)
  pub removexattr : S → Bool → String → String → Result GoError S
  pub listxattr : S → Bool → String → ℕ → Result GoError (Bytes × ℕ)
  pub extract_mount_info : S → Result GoError Bytes
  pub file_inode : S → String → ℕ
  pub user_uid : S → String → Option String
  pub group_gid : S → String → Option String
  pub statfs_type : S → String → Option ℕ
  pub openat2 : S → String → ℕ → ℕ → ℕ → Result GoError (ℕ × S)

-- How a request ends: with ResMsg set, with an error of processRequest, or with a panic.
pub data Outcome : Type 0 where
  replied : NsMsg → Payload → Outcome
  request_error panicked : Outcome

abbrev pub error_reply : GoError → Outcome
error_reply e = replied NsMsg.error_response (io_error e)

module _ {S : Type 0} (os : Os S) where
  cleaned : PayloadMounts → List Action → Outcome × S → Outcome × S × List Action
  cleaned pmi actions (r, s) = (r, s, actions ++ cleanup pmi)

  mounted_then :
      (GoError → Outcome)
      → S
      → (PayloadMounts → Outcome × S)
      → Result GoError PayloadMounts × List Action
      → Outcome × S × List Action
  unfolding cleaned
  mounted_then on_error s body (err e, actions) = (on_error e, s, actions)
  mounted_then on_error s body (ok pmi, actions) = cleaned pmi actions (body pmi)

  -- The start and the end of each request on a file: the mounts, and their clean-up.
  unfoldable pub with_mounts :
      (GoError → Outcome) → Wants → S → (PayloadMounts → Outcome × S) → Outcome × S × List Action
  unfolding mounted_then
  with_mounts on_error wants s body =
      mounted_then on_error s body (process_payload_mounts wants.sysfs wants.procfs (os.replies s))

  lookup_reply : Result GoError DomainFileInfo → Outcome
  lookup_reply (err e) = error_reply e
  lookup_reply (ok info) = replied NsMsg.lookup_response (Payload.file_info info)

  unfoldable pub process_lookup_request : String → Wants → S → Outcome × S × List Action
  unfolding with_mounts lookup_reply
  process_lookup_request entry wants s =
      with_mounts error_reply wants s
        (λ pmi. (lookup_reply (os.lstat s (replace_procfs_and_sysfs_paths entry pmi)), s))

  opened_reply : S → Result GoError S → Outcome × S
  opened_reply s (err e) = (error_reply e, s)
  opened_reply s (ok s') = (replied NsMsg.open_file_response nil, s')

  open_with : String → S → Option ℕ → Option ℕ → Outcome × S
  unfolding opened_reply
  open_with path s none mode = (error_reply other_error, s)
  open_with path s (some fl) none = (error_reply other_error, s)
  open_with path s (some fl) (some m) = opened_reply s (os.open_file s path fl m)

  open_path : String → String → String → S → Outcome × S
  unfolding open_with
  open_path path flags mode s = open_with path s (os.atoi flags) (os.atoi mode)

  unfoldable pub process_open_file_request :
      String → String → String → Wants → S → Outcome × S × List Action
  unfolding with_mounts open_path
  process_open_file_request file flags mode wants s =
      with_mounts error_reply wants s
        (λ pmi. open_path (replace_procfs_and_sysfs_paths file pmi) flags mode s)

  read_reply : Bytes × ReadEnd → Outcome
  read_reply (data_read, read_error e) = error_reply e
  read_reply (data_read, all_read) = replied NsMsg.read_file_response (Payload.bytes data_read)
  read_reply (data_read, at_eof) = replied NsMsg.read_file_response (Payload.bytes data_read)

  read_opened : String → ℕ → ℕ → S → Result GoError S → Outcome × S
  unfolding read_reply
  read_opened path offset len s (err e) = (error_reply e, s)
  read_opened path offset len s (ok s') = (read_reply (os.read_at s' path len offset), s')

  read_from : String → ℕ → ℕ → S → Outcome × S
  unfolding read_opened
  read_from path offset len s = read_opened path offset len s (os.open_file s path 0 0)

  unfoldable pub process_file_read_request : String → ℕ → ℕ → Wants → S → Outcome × S × List Action
  unfolding with_mounts read_from
  process_file_read_request file offset len wants s =
      with_mounts error_reply wants s
        (λ pmi. read_from (replace_procfs_and_sysfs_paths file pmi) offset len s)

  write_reply : Option GoError × S → Outcome × S
  write_reply (some e, s) = (error_reply e, s)
  write_reply (none, s) = (replied NsMsg.write_file_response nil, s)

  write_opened : String → ℕ → Bytes → S → Result GoError S → Outcome × S
  unfolding write_reply
  write_opened path offset content s (err e) = (error_reply e, s)
  write_opened path offset content s (ok s') = write_reply (os.write_at s' path content offset)

  -- os.O_WRONLY is 1.
  write_into : String → ℕ → Bytes → S → Outcome × S
  unfolding write_opened
  write_into path offset content s = write_opened path offset content s (os.open_file s path 1 0)

  unfoldable pub process_file_write_request :
      String → ℕ → Bytes → Wants → S → Outcome × S × List Action
  unfolding with_mounts write_into
  process_file_write_request file offset content wants s =
      with_mounts error_reply wants s
        (λ pmi. write_into (replace_procfs_and_sysfs_paths file pmi) offset content s)

  dir_reply : Result GoError (List DomainFileInfo) → Outcome
  dir_reply (err e) = error_reply e
  dir_reply (ok infos) = replied NsMsg.read_dir_response (Payload.file_infos infos)

  unfoldable pub process_dir_read_request : String → Wants → S → Outcome × S × List Action
  unfolding with_mounts dir_reply
  process_dir_read_request dir wants s =
      with_mounts error_reply wants s
        (λ pmi. (dir_reply (os.read_dir s (replace_procfs_and_sysfs_paths dir pmi)), s))

  -- The error of a link is sendable as it is, and not as an IOerror.
  link_refused : GoError → Outcome
  link_refused e = replied NsMsg.error_response (raw_error e)

  link_reply : Result GoError String → Outcome
  unfolding link_refused
  link_reply (err e) = link_refused e
  link_reply (ok link) = replied NsMsg.read_link_response (Payload.text link)

  unfoldable pub process_read_link_request : String → Wants → S → Outcome × S × List Action
  unfolding with_mounts link_reply link_refused
  process_read_link_request link wants s =
      with_mounts link_refused wants s
        (λ pmi. (link_reply (os.read_link s (replace_procfs_and_sysfs_paths link pmi)), s))
