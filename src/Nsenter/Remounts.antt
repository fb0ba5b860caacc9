-- ===== src/Nsenter/Remounts.antt =====
-- The mounts of procfs and sysfs that the agent makes for one request, in a mount namespace of its own
-- (nsenter/utils.go). What the kernel answers is a parameter; the actions are kept as a trace.
pub mod Laws
use sysbox_fs.Prelude.{
  ℕ, String, Bool, true, false, not, Option, none, some, List, [], ◌∷◌, ◌++◌, ◌==◌, string_eq,
  Result, ok, err, if◌then◌else◌,
}
use sysbox_fs.Text.{has_prefix, drop_prefix, concat}

-- The errors of package os: *os.PathError and *os.SyscallError hold an error that is a syscall.Errno or
-- is not (`none`); then an Errno itself, and all others.
pub data GoError : Type 0 where
  path_error syscall_error : Option ℕ → GoError
  bare_errno : ℕ → GoError
  other_error : GoError

-- MkdirTemp refuses on a read-only file system, or by another error.
pub data MkdirError : Type 0 where
  read_only : MkdirError
  mkdir_failed : GoError → MkdirError

-- What MkdirTemp answers for sysfs and procfs, and the mounts of the two (`none` is success).
pub record MountReplies : Type 0 where
  pub sysfs_dir : Result MkdirError String
  pub sysfs_mount : Option GoError
  pub procfs_dir : Result MkdirError String
  pub procfs_mount : Option GoError

pub data Action : Type 0 where
  made_dir mounted detached removed_all : String → Action

-- payloadMountsInfo; a mountpoint is empty where nothing is mounted.
pub record PayloadMounts : Type 0 where
  pub sysfs_mountpoint : String
  pub procfs_mountpoint : String

-- The directory to mount on, and the actions so far.
temp_dir : Result MkdirError String → Result GoError (String × List Action)
temp_dir (ok dir) = ok (dir, made_dir dir ∷ [])
temp_dir (err read_only) = ok ("/dev", [])
temp_dir (err (mkdir_failed e)) = err e

-- A failed mount of sysfs removes the directory, whichever it is.
sysfs_mounted : Option GoError → String × List Action → Result GoError String × List Action
sysfs_mounted none (dir, made) = (ok dir, made ++ mounted dir ∷ [])
sysfs_mounted (some e) (dir, made) = (err e, made ++ removed_all dir ∷ [])

cleanup_at : String → String → List Action
cleanup_at prefix dir =
    if dir == ""
    then []
    else if has_prefix dir prefix
    then detached dir ∷ removed_all dir ∷ []
    else detached dir ∷ []

unfoldable pub cleanup_sysfs : String → List Action
unfolding cleanup_at
cleanup_sysfs dir = cleanup_at "/.sysbox-sysfs-" dir

unfoldable pub cleanup_procfs : String → List Action
unfolding cleanup_at
cleanup_procfs dir = cleanup_at "/.sysbox-procfs-" dir

unfoldable pub cleanup : PayloadMounts → List Action
unfolding cleanup_sysfs cleanup_procfs
cleanup pmi = cleanup_sysfs pmi.sysfs_mountpoint ++ cleanup_procfs pmi.procfs_mountpoint

after_temp_dir :
    (String × List Action → Result GoError String × List Action)
    → Result GoError (String × List Action)
    → Result GoError String × List Action
after_temp_dir next (ok made) = next made
after_temp_dir next (err e) = (err e, [])

sysfs_part : Bool → MountReplies → Result GoError String × List Action
unfolding temp_dir sysfs_mounted after_temp_dir
sysfs_part false k = (ok "", [])
sysfs_part true k = after_temp_dir (sysfs_mounted k.sysfs_mount) (temp_dir k.sysfs_dir)

-- A failed mount of procfs takes the mount of sysfs back, and leaves the new directory.
procfs_mounted :
    String → Option GoError → String × List Action → Result GoError String × List Action
procfs_mounted sysfs none (dir, made) = (ok dir, made ++ mounted dir ∷ [])
procfs_mounted sysfs (some e) (dir, made) = (err e, made ++ cleanup_sysfs sysfs)

procfs_part : Bool → String → MountReplies → Result GoError String × List Action
unfolding temp_dir procfs_mounted after_temp_dir cleanup_sysfs
procfs_part false sysfs k = (ok "", [])
procfs_part true sysfs k =
    after_temp_dir (procfs_mounted sysfs k.procfs_mount) (temp_dir k.procfs_dir)

both_mounted :
    String
    → List Action
    → Result GoError String × List Action
    → Result GoError PayloadMounts × List Action
both_mounted sysfs before (ok procfs, actions) =
    (ok (record { sysfs_mountpoint = sysfs; procfs_mountpoint = procfs }), before ++ actions)
both_mounted sysfs before (err e, actions) = (err e, before ++ actions)

then_procfs :
    Bool
    → MountReplies
    → Result GoError String × List Action
    → Result GoError PayloadMounts × List Action
unfolding both_mounted procfs_part
then_procfs want k (ok sysfs, before) = both_mounted sysfs before (procfs_part want sysfs k)
then_procfs want k (err e, before) = (err e, before)

unfoldable pub process_payload_mounts :
    Bool → Bool → MountReplies → Result GoError PayloadMounts × List Action
unfolding then_procfs sysfs_part
process_payload_mounts want_sysfs want_procfs k =
    then_procfs want_procfs k (sysfs_part want_sysfs k)

unfoldable pub replace_procfs_and_sysfs_paths : String → PayloadMounts → String
unfolding has_prefix drop_prefix
replace_procfs_and_sysfs_paths path pmi =
    if has_prefix path "/sys/"
    then concat (concat pmi.sysfs_mountpoint "/") (drop_prefix path "/sys/")
    else if has_prefix path "/proc/"
    then concat (concat pmi.procfs_mountpoint "/") (drop_prefix path "/proc/")
    else path
