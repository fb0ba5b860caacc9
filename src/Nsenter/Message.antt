-- ===== src/Nsenter/Message.antt =====
-- The messages between sysbox-fs and its agent (domain/nsenter.go, IOerror of fuse/error.go).
use sysbox_fs.Prelude.{ℕ, ◌≡◌, String, Bool, if◌then◌else◌, Option, none, some, List}
use sysbox_fs.Prelude.Bytes.{Bytes}
use sysbox_fs.Fuse.Node.{DomainFileInfo}
use sysbox_fs.Seccomp.Context.{MountPayload}
use sysbox_fs.Nsenter.Remounts.{GoError, path_error, syscall_error, bare_errno, other_error}

-- NSenterMsgType.
pub data NsMsg : Type 0 where
  lookup_request lookup_response open_file_request open_file_response : NsMsg
  read_file_request read_file_response write_file_request write_file_response : NsMsg
  read_dir_request read_dir_response read_link_request read_link_response : NsMsg
  mount_syscall_request mount_syscall_response umount_syscall_request : NsMsg
  umount_syscall_response chown_syscall_request chown_syscall_response : NsMsg
  mount_info_request mount_info_response mount_inode_request mount_inode_response : NsMsg
  sleep_request sleep_response setxattr_request setxattr_response : NsMsg
  getxattr_request getxattr_response removexattr_request removexattr_response : NsMsg
  listxattr_request listxattr_response uid_info_request uid_info_response : NsMsg
  gid_info_request gid_info_response openat2_request openat2_response error_response : NsMsg

-- NSenterMsgHeader.
pub record Header : Type 0 where
  pub root : String
  pub cwd : String
  pub capabilities : ℕ × ℕ

-- Whether the agent mounts sysfs and procfs.
pub record Wants : Type 0 where
  pub sysfs : Bool
  pub procfs : Bool

-- ChownSyscallPayload, and the payloads of the extended attributes and of openat2.
pub record ChownPayload : Type 0 where
  pub target : String
  pub uid : ℕ
  pub gid : ℕ

pub record XattrPayload : Type 0 where
  pub header : Header
  pub syscall : String
  pub path : String
  pub name : String
  pub val : Bytes
  pub flags : ℕ
  pub size : ℕ

pub record Openat2Payload : Type 0 where
  pub header : Header
  pub path : String
  pub flags : ℕ
  pub mode : ℕ
  pub resolve : ℕ
  pub check_for_sysboxfs : Bool

-- A payload by its Go type. Of an IOerror on the wire the code is kept, and the error itself before it is
-- encoded; `raw_error` is an error value that is no IOerror.
pub data Payload : Type 0 where
  nil : Payload
  lookup_payload read_dir_payload read_link_payload : String → Wants → Payload
  open_file_payload : String → String → String → Wants → Payload
  read_file_payload : String → ℕ → ℕ → Wants → Payload
  write_file_payload : String → ℕ → Bytes → Wants → Payload
  mount_payloads umount_payloads : List MountPayload → Payload
  chown_payloads : List ChownPayload → Payload
  setxattr_payload getxattr_payload removexattr_payload listxattr_payload : XattrPayload → Payload
  openat2_payload : Openat2Payload → Payload
  mount_inode_payload : List String → Payload
  sleep_payload user_payload group_payload : String → Payload
  file_info : DomainFileInfo → Payload
  file_infos : List DomainFileInfo → Payload
  number : ℕ → Payload
  bytes : Bytes → Payload
  text : String → Payload
  mount_info_resp : Bytes → Payload
  inodes_resp : List ℕ → Payload
  getxattr_resp listxattr_resp : Bytes → ℕ → Payload
  uid_resp gid_resp : String → Payload
  openat2_resp : ℕ → Payload
  io_error : GoError → Payload
  io_code : ℕ → Payload
  raw_error : GoError → Payload

-- The Go types that payloads are decoded into.
pub data Shape : Type 0 where
  lookup_shape read_dir_shape read_link_shape open_file_shape read_file_shape : Shape
  write_file_shape mounts_shape umounts_shape chowns_shape setxattr_shape getxattr_shape : Shape
  removexattr_shape listxattr_shape openat2_shape mount_inode_shape sleep_shape : Shape
  file_info_shape file_infos_shape number_shape bytes_shape text_shape : Shape
  mount_info_shape inodes_shape getxattr_resp_shape listxattr_resp_shape uid_shape : Shape
  gid_shape openat2_resp_shape io_error_shape : Shape

-- encoding/json. A null payload is not decoded: it stays the zero value of its type.
pub record Codec : Type 1 where
  pub Json : Type 0
  pub is_null : Json → Bool
  pub marshal : Payload → Json
  pub unmarshal : Shape → Json → Option Payload
  pub zero_value : Shape → Payload

-- json.Unmarshal behind the test for null.
unfoldable pub decode : (codec : Codec) → Shape → codec.Json → Option Payload
decode codec shape json =
    if codec.is_null json then some (codec.zero_value shape) else codec.unmarshal shape json

abbrev pub eio : ℕ
eio = 5

-- The code of MarshalJSON; `none` is the panic of the type assertion on an error of package os that holds
-- no number.
unfoldable pub code_of : GoError → Option ℕ
code_of (path_error e) = e
code_of (syscall_error e) = e
code_of (bare_errno e) = some e
code_of other_error = some eio

-- A payload as json.Marshal takes it.
unfoldable pub to_wire : Payload → Option Payload
unfolding code_of
to_wire (io_error e) = elim (code_of e) [ none ↦ none | some c ↦ some (io_code c) ]
to_wire p = some p

-- A response is taken without its payload, or decoded into a type.
pub data Taken : Type 0 where
  dropped unsupported : Taken
  into : Shape → Taken

unfoldable pub taken_as : NsMsg → Taken
taken_as NsMsg.lookup_response = into file_info_shape
taken_as NsMsg.open_file_response = into number_shape
taken_as NsMsg.read_file_response = into bytes_shape
taken_as NsMsg.write_file_response = dropped
taken_as NsMsg.read_dir_response = into file_infos_shape
taken_as NsMsg.read_link_response = into text_shape
taken_as NsMsg.mount_syscall_response = dropped
taken_as NsMsg.umount_syscall_response = dropped
taken_as NsMsg.mount_info_response = into mount_info_shape
taken_as NsMsg.mount_inode_response = into inodes_shape
taken_as NsMsg.chown_syscall_response = dropped
taken_as NsMsg.setxattr_response = dropped
taken_as NsMsg.getxattr_response = into getxattr_resp_shape
taken_as NsMsg.removexattr_response = dropped
taken_as NsMsg.listxattr_response = into listxattr_resp_shape
taken_as NsMsg.sleep_response = dropped
taken_as NsMsg.uid_info_response = into uid_shape
taken_as NsMsg.gid_info_response = into gid_shape
taken_as NsMsg.openat2_response = into openat2_resp_shape
taken_as NsMsg.error_response = into io_error_shape
taken_as _ = unsupported

-- The type that a payload is decoded into.
unfoldable pub shape_of : Payload → Option Shape
shape_of nil = none
shape_of (lookup_payload e w) = some lookup_shape
shape_of (read_dir_payload d w) = some read_dir_shape
shape_of (read_link_payload l w) = some read_link_shape
shape_of (open_file_payload f fl m w) = some open_file_shape
shape_of (read_file_payload f o l w) = some read_file_shape
shape_of (write_file_payload f o c w) = some write_file_shape
shape_of (mount_payloads ps) = some mounts_shape
shape_of (umount_payloads ps) = some umounts_shape
shape_of (chown_payloads ps) = some chowns_shape
shape_of (setxattr_payload p) = some setxattr_shape
shape_of (getxattr_payload p) = some getxattr_shape
shape_of (removexattr_payload p) = some removexattr_shape
shape_of (listxattr_payload p) = some listxattr_shape
shape_of (openat2_payload p) = some openat2_shape
shape_of (mount_inode_payload mps) = some mount_inode_shape
shape_of (sleep_payload i) = some sleep_shape
shape_of (user_payload u) = none
shape_of (group_payload g) = none
shape_of (file_info i) = some file_info_shape
shape_of (file_infos is) = some file_infos_shape
shape_of (number n) = some number_shape
shape_of (bytes b) = some bytes_shape
shape_of (text t) = some text_shape
shape_of (mount_info_resp b) = some mount_info_shape
shape_of (inodes_resp ns) = some inodes_shape
shape_of (getxattr_resp v n) = some getxattr_resp_shape
shape_of (listxattr_resp v n) = some listxattr_resp_shape
shape_of (uid_resp u) = some uid_shape
shape_of (gid_resp g) = some gid_shape
shape_of (openat2_resp fd) = some openat2_resp_shape
shape_of (io_error e) = none
shape_of (io_code c) = some io_error_shape
shape_of (raw_error e) = none

-- What the program relies on of encoding/json: a value is decoded into its own type as it was; null
-- leaves an int at 0; and the fields of a *os.PathError are not those of an IOerror.
pub record IsJson (codec : Codec) : Type 0 where
  pub round_trip :
      (shape : Shape) (p : Payload)
      → shape_of p ≡ some shape
      → decode codec shape (codec.marshal p) ≡ some p
  pub null_number : decode codec number_shape (codec.marshal nil) ≡ some (number 0)
  pub unknown_fields :
      (e : Option ℕ)
      → decode codec io_error_shape (codec.marshal (raw_error (path_error e))) ≡ some (io_code 0)
