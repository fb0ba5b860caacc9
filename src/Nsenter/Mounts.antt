-- ===== src/Nsenter/Mounts.antt =====
-- Lists of mounts and unmounts (processMountSyscallRequest and processUmountSyscallRequest of
-- nsenter/event.go). The kernel's mount and unmount are a parameter, on a state of the mounts.
pub mod Laws
use sysbox_fs.Prelude.{
  ℕ, String, Bool, true, false, not, Option, none, some, List, [], ◌∷◌, ◌==◌, string_eq, Result, ok,
  err, if◌then◌else◌,
}
use sysbox_fs.Mount.Flags.{has_flag, ms_remount}
use sysbox_fs.Seccomp.Context.{MountPayload}

-- An error of the kernel, or `none`, and the state behind the call.
pub record Kernel (S : Type 0) : Type 0 where
  pub mount : S → MountPayload → Result ℕ S
  pub unmount : S → String → ℕ → Result ℕ S

-- The response; `no_element` is the panic of payload[0] on an empty request.
pub data AgentReply : Type 0 where
  done : AgentReply
  failed_with : ℕ → AgentReply
  no_element : AgentReply

module _ {S : Type 0} (kernel : Kernel S) where
  -- An unmount whose error is ignored.
  try_unmount : S → String → S
  try_unmount s target = elim (kernel.unmount s target 0) [ err e ↦ s | ok s' ↦ s' ]

  -- The mounts that were made, the last one first, are unmounted, but for remounts.
  unfoldable pub roll_back : List MountPayload → S → S
  unfolding try_unmount
  roll_back [] s = s
  roll_back (p ∷ made) s =
      roll_back made (if has_flag ms_remount p.flags then s else try_unmount s p.target)

  -- The loop over the elements that are left, with those made before, the last one first.
  unfoldable pub perform_mounts : List MountPayload → List MountPayload → S → AgentReply × S
  unfolding roll_back
  perform_mounts made [] s = (done, s)
  perform_mounts made (p ∷ ps) s = elim (kernel.mount s p) [
    | err e ↦ (failed_with e, roll_back made s)
    | ok s' ↦ perform_mounts (p ∷ made) ps s'
  ]

  -- `personality` is what AdjustPersonality returns for the mount of an overlay.
  unfoldable pub process_mount_syscall_request : Option ℕ → List MountPayload → S → AgentReply × S
  unfolding perform_mounts
  process_mount_syscall_request personality [] s = (no_element, s)
  process_mount_syscall_request personality (p ∷ ps) s =
      if p.fs_type == "overlay"
      then elim personality [ some e ↦ (failed_with e, s) | none ↦ perform_mounts [] (p ∷ ps) s ]
      else perform_mounts [] (p ∷ ps) s

  -- What was unmounted before an error stays unmounted.
  unfoldable pub process_umount_syscall_request : List MountPayload → S → AgentReply × S
  process_umount_syscall_request [] s = (done, s)
  process_umount_syscall_request (p ∷ ps) s = elim (kernel.unmount s p.target p.flags) [
    | err e ↦ (failed_with e, s)
    | ok s' ↦ process_umount_syscall_request ps s'
  ]
