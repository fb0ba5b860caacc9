-- ===== src/Handler/Kernel.antt =====
-- The handler of /proc/sys/kernel (handler/implementations/procSysKernel.go).
pub mod Laws
use Prim.Native.Nat.{bit_and}
use sysbox_fs.Prelude.{
  ℕ, zero, suc, String, Bool, true, false, ◌&&◌, ◌||◌, not, Option, none, some, List, [], ◌∷◌, any,
  ◌==◌, nat_eq, string_eq, length, Result, ok, err, if◌then◌else◌,
}
use sysbox_fs.Prelude.Int.{ℤ, pos}
use sysbox_fs.Prelude.Bytes.{Bytes}
use sysbox_fs.State.Data.{DataStore}
use sysbox_fs.Handler.Ints.{check_int_range}
use sysbox_fs.Handler.Store.{Node, FsError, Served, write_cntr_data, read_cntr_data}
use sysbox_fs.Handler.PassThrough.{
  FileAgent, NodeInfo, JoinedNss, all_nss, all_nss_but_user, read_with_ns, write_with_ns,
  open_with_ns, lookup_through, einval,
}

-- The emulated resources, with their mode and size.
abbrev pub kernel_resources : List NodeInfo
kernel_resources =
    record { name = "domainname"; mode = 420; size = 4096 }
    ∷ record { name = "hostname"; mode = 420; size = 4096 }
    ∷ record { name = "kptr_restrict"; mode = 420; size = 2 }
    ∷ record { name = "dmesg_restrict"; mode = 420; size = 2 }
    ∷ record { name = "ngroups_max"; mode = 292; size = 1024 }
    ∷ record { name = "cap_last_cap"; mode = 292; size = 1024 }
    ∷ record { name = "panic"; mode = 420; size = 4096 }
    ∷ record { name = "panic_on_oops"; mode = 420; size = 2 }
    ∷ record { name = "printk"; mode = 420; size = 1024 }
    ∷ record { name = "sysrq"; mode = 420; size = 1024 }
    ∷ record { name = "pid_max"; mode = 420; size = 1024 }
    ∷ []

unfoldable pub find_resource : List NodeInfo → String → Option NodeInfo
find_resource [] name = none
find_resource (r ∷ rs) name = if r.name == name then some r else find_resource rs name

unfoldable pub is_emulated : String → Bool
unfolding find_resource
is_emulated name = elim (find_resource kernel_resources name) [ none ↦ false | some r ↦ true ]

abbrev pub is_fixed : String → Bool
is_fixed name = name == "cap_last_cap" || name == "ngroups_max"

-- The range that a written number must be in.
unfoldable pub range_of : String → Option (ℤ × ℤ)
range_of name =
    if name == "pid_max"
    then some (pos 1, pos 4194304)
    else if name == "kptr_restrict"
    then some (pos 0, pos 3)
    else if name == "dmesg_restrict"
    then some (pos 0, pos 1)
    else if name == "sysrq"
    then some (pos 0, pos 511)
    else none

unfoldable pub in_range_of : String → Bytes → Bool
in_range_of name content = elim (range_of name) [
  | none ↦ true
  | some (min, max) ↦ check_int_range content min max
]

-- The shm sysctls are accessed outside of the user namespace where the kernel asks for it.
unfoldable pub namespaces_of : Bool → String → JoinedNss
namespaces_of shm_namespaced name =
    if not shm_namespaced && (name == "shmall" || name == "shmmax" || name == "shmmni")
    then all_nss_but_user
    else all_nss

-- `flags&O_WRONLY == O_WRONLY || flags&O_RDWR == O_RDWR`.
unfoldable pub asks_to_write : ℕ → Bool
asks_to_write flags = bit_and flags 1 == 1 || bit_and flags 2 == 2

abbrev pub eacces : ℕ
eacces = 13

-- What a write changes: the file that sysbox-fs opens itself, on the host; the container's data store;
-- the system that the agents write to, the host's sysctls included.
pub record World (F G : Type 0) : Type 0 where
  pub host : F
  pub cache : DataStore
  pub inner : G

-- What is fixed for a request: the path of the node, its name, whether the process has the
-- namespaces of the container, NoCache, and the settings of the service.
pub record Request : Type 0 where
  pub path : String
  pub name : String
  pub same_ns : Bool
  pub no_cache : Bool
  pub ignore_errors : Bool
  pub shm_namespaced : Bool

module _ {F G : Type 0} (node : Node F) (agent : FileAgent G) (others : ℕ → F → F) where
  unfoldable pub kernel_lookup : Request → G → Result ℕ NodeInfo
  unfolding find_resource
  kernel_lookup req g = elim (find_resource kernel_resources req.name) [
    | some info ↦ ok info
    | none ↦ lookup_through agent g req.path
  ]

  unfoldable pub kernel_open : Request → G → ℕ → ℕ → Result ℕ Bool
  unfolding asks_to_write namespaces_of is_emulated
  kernel_open req g flags mode =
      if is_fixed req.name && asks_to_write flags
      then err eacces
      else if is_emulated req.name
      then ok false
      else open_with_ns agent (namespaces_of req.shm_namespaced req.name) g req.path flags mode

  unfoldable pub kernel_read : Request → World F G → ℕ → Bytes → Served × DataStore
  unfolding namespaces_of is_emulated
  kernel_read req w offset buffer =
      if is_emulated req.name
      then read_cntr_data node true w.host w.cache req.path offset buffer
      else read_with_ns agent (namespaces_of req.shm_namespaced req.name) req.same_ns req.no_cache
          w.inner w.cache req.path offset buffer

  errno : Result FsError ℕ → Result ℕ ℕ
  errno (ok n) = ok n
  errno (err e) = err einval

  -- writeCntrData without a condition to write to the host.
  write_cached : Request → World F G → ℕ → Bytes → Result ℕ ℕ × World F G
  unfolding errno
  write_cached req w offset content =
      let ((r, cache'), host') =
        write_cntr_data node others true req.ignore_errors none w.host w.cache req.path offset
          content in
      (errno r, record w { host = host'; cache = cache' })

  write_through : Request → World F G → ℕ → Bytes → Result ℕ ℕ × World F G
  write_through req w offset content =
      let ((r, cache'), inner') =
        write_with_ns agent (namespaces_of req.shm_namespaced req.name) req.same_ns req.no_cache
          w.inner w.cache req.path offset content in
      (r, record w { cache = cache'; inner = inner' })

  unfoldable pub kernel_write : Request → World F G → ℕ → Bytes → Result ℕ ℕ × World F G
  unfolding write_cached write_through namespaces_of is_emulated in_range_of range_of
  kernel_write req w offset content =
      if is_fixed req.name
      then (ok 0, w)
      else if not (in_range_of req.name content)
      then (err einval, w)
      else if is_emulated req.name
      then write_cached req w offset content
      else write_through req w offset content
