-- ===== src/Seccomp/Context.antt =====
-- What the handlers of seccomp/*.go share: responses (seccomp/tracer.go), the calling process, the
-- services, and the requests to the nsenter agent, whose replies are a parameter.
pub mod Laws
use sysbox_fs.Prelude.{
  ℕ, zero, suc, String, Bool, true, false, Option, none, some, List, ◌==◌, string_eq, Result, ok,
  err, if◌then◌else◌,
}
use sysbox_fs.Prelude.Maps.{lookup}
use sysbox_fs.Text.{join, trim_prefix}
use sysbox_fs.Mount.Info.{MountInfoParser}
use sysbox_fs.Mount.Clone.{Agent, Parsers}

pub record SysResponse : Type 0 where
  pub id : ℕ
  pub error : ℕ
  pub val : ℕ
  pub flags : ℕ

-- libseccomp.NotifRespFlagContinue.
abbrev pub resp_flag_continue : ℕ
resp_flag_continue = 1

-- The errors of package syscall that the handlers name.
abbrev pub eperm : ℕ
eperm = 1

abbrev pub enoent : ℕ
enoent = 2

abbrev pub eacces : ℕ
eacces = 13

abbrev pub ebusy : ℕ
ebusy = 16

abbrev pub einval : ℕ
einval = 22

unfoldable pub create_success_response : ℕ → SysResponse
create_success_response id = record { id = id; error = 0; val = 0; flags = 0 }

unfoldable pub create_success_response_with_ret_value : ℕ → ℕ → SysResponse
create_success_response_with_ret_value id val = record { id = id; error = 0; val = val; flags = 0 }

unfoldable pub create_continue_response : ℕ → SysResponse
create_continue_response id = record { id = id; error = 0; val = 0; flags = resp_flag_continue }

errno_or_einval : Option ℕ → ℕ
errno_or_einval none = einval
errno_or_einval (some e) = e

-- `none` is an error that is no syscall.Errno.
unfoldable pub create_error_response : ℕ → Option ℕ → SysResponse
unfolding errno_or_einval
create_error_response id e = record { id = id; error = errno_or_einval e; val = 0; flags = 0 }

-- One mount instruction for the nsenter agent (domain.Mount with its header).
pub record MountPayload : Type 0 where
  pub header : Option (String × String × ℕ × ℕ)
  pub source : String
  pub target : String
  pub fs_type : String
  pub flags : ℕ
  pub mount_data : String

pub data MsgType : Type 0 where
  mount_syscall umount_syscall chown_syscall : MsgType

-- `domain.AllNSs`, or `domain.AllNSsButUser`.
pub data Namespaces : Type 0 where
  all_nss all_nss_but_user : Namespaces

pub data EventPayload : Type 0 where
  mounts : List MountPayload → EventPayload
  chown_target : String → ℕ → ℕ → EventPayload

pub record Event : Type 0 where
  pub msg_type : MsgType
  pub pid : ℕ
  pub uid : ℕ
  pub gid : ℕ
  pub namespaces : Namespaces
  pub payload : EventPayload

-- The reply of the agent, or the failure to reach it.
pub data Reply : Type 0 where
  send_failed : Reply
  error_reply : ℕ → Reply
  response : Reply

-- A process, as procfs shows it; `none` where its mount namespace cannot be read.
pub record ProcessView : Type 0 where
  pub root : String
  pub root_inode : ℕ
  pub mount_ns : Option ℕ

pub record SyscallCtx : Type 0 where
  pub req_id : ℕ
  pub pid : ℕ
  pub uid : ℕ
  pub gid : ℕ
  pub cwd : String
  pub root : String
  pub process_info : ProcessView
  pub init_proc : ProcessView
  pub eff_caps : ℕ × ℕ
  pub allow_immutable_remounts : Bool
  pub allow_immutable_unmounts : Bool
  pub debug_level : Bool
  pub depth : ℕ
  pub inodes : Agent
  pub file_exists : String → Bool
  pub nsenter : Event → Reply

-- A handler's outcome: a response, a Go error, or the end of the program at a nil dereference.
pub data Outcome : Type 0 where
  respond : SysResponse → Outcome
  failed crashed : Outcome

abbrev pub is_response : Outcome → Bool
is_response (respond resp) = true
is_response failed = false
is_response crashed = false

unfoldable pub after_reply : SyscallCtx → Reply → Outcome
unfolding create_error_response create_success_response
after_reply ctx send_failed = failed
after_reply ctx (error_reply code) = respond (create_error_response ctx.req_id (some code))
after_reply ctx response = respond (create_success_response ctx.req_id)

-- The end of every handler that sends one event.
unfoldable pub after_event : SyscallCtx → Event → Outcome
after_event ctx event = after_reply ctx (ctx.nsenter event)

-- `(true, nil)`, or `(false, response)`.
pub data Verdict : Type 0 where
  allowed : Verdict
  denied : SysResponse → Verdict

abbrev pub deny : SyscallCtx → ℕ → Verdict
deny ctx e = denied (create_error_response ctx.req_id (some e))

-- targetAdjust and targetUnadjust, of mount and of umount requests.
unfoldable pub target_adjust : String → String → String
unfolding join
target_adjust root target = if root == "/" then target else join root target

unfoldable pub target_unadjust : String → String → String
unfolding trim_prefix
target_unadjust root target = if root == "/" then target else trim_prefix target root
