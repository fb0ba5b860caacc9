-- ===== src/Handler/Sysctl.antt =====
-- The handlers of /proc/sys/fs, /proc/sys/net/core, /proc/sys/net/unix and /proc/sys/vm
-- (handler/implementations/procSysFs.go, procSysNetCore.go, procSysNetUnix.go, procSysVm.go), which
-- differ in their resources and in the rules for a write.
pub mod Laws
pub mod Net
use sysbox_fs.Prelude.{
  ℕ, ◌-◌, ◌^◌, String, Bool, true, false, ◌&&◌, ◌||◌, not, Option, none, some, List, [], ◌∷◌, any,
  ◌==◌, nat_eq, string_eq, Result, ok, err, if◌then◌else◌,
}
use sysbox_fs.Prelude.Int.{pos}
use sysbox_fs.Prelude.Bytes.{Bytes, bytes_eq}
use sysbox_fs.State.Data.{DataStore}
use sysbox_fs.Handler.Ints.{check_int_range, write_max_int_to_fs, trim_left, trim_right}
use sysbox_fs.Handler.Store.{Node, FsError, einval, Served, write_cntr_data, read_cntr_data}
use sysbox_fs.Handler.PassThrough.{
  FileAgent, NodeInfo, all_nss, read_with_ns, write_with_ns, open_with_ns, lookup_through,
}
use sysbox_fs.Handler.Kernel.{World, Request, find_resource}

-- The emulated resources; whether Open answers for every name; the check of a write's data; the
-- condition under which it goes to the host, or `none`.
pub record Sysctl : Type 0 where
  pub resources : List NodeInfo
  pub opens_all : Bool
  pub accepts : String → Bytes → Bool
  pub push : String → Option (Bytes → Bytes → Option Bool)

-- A write fails at the host's file or the cache, or in the container.
pub data SysctlError : Type 0 where
  host_error : FsError → SysctlError
  agent_error : ℕ → SysctlError

-- `writeToFs`.
abbrev pub write_to_fs : Bytes → Bytes → Option Bool
write_to_fs curr new = some true

abbrev pub proc_sys_fs : Sysctl
proc_sys_fs = record {
  resources =
      record { name = "file-max"; mode = 420; size = 1024 }
      ∷ record { name = "nr_open"; mode = 420; size = 1024 }
      ∷ record { name = "protected_hardlinks"; mode = 384; size = 1024 }
      ∷ record { name = "protected_symlinks"; mode = 384; size = 1024 }
      ∷ [];
  opens_all = false;
  accepts = λ name new.
      if name == "protected_hardlinks" || name == "protected_symlinks"
      then check_int_range new (pos 0) (pos 1)
      else true;
  push = λ name. if name == "file-max" || name == "nr_open" then some write_max_int_to_fs else none;
}

-- The supported disciplines: fq, fq_codel, sfq and pfifo_fast.
abbrev pub disciplines : List Bytes
disciplines =
    (102 ∷ 113 ∷ [])
    ∷ (102 ∷ 113 ∷ 95 ∷ 99 ∷ 111 ∷ 100 ∷ 101 ∷ 108 ∷ [])
    ∷ (115 ∷ 102 ∷ 113 ∷ [])
    ∷ (112 ∷ 102 ∷ 105 ∷ 102 ∷ 111 ∷ 95 ∷ 102 ∷ 97 ∷ 115 ∷ 116 ∷ [])
    ∷ []

unfoldable pub is_discipline : Bytes → Bool
unfolding trim_left trim_right
is_discipline new = any (λ d. d == trim_left (trim_right new)) disciplines

unfoldable pub proc_sys_net_core : Sysctl
unfolding is_discipline
proc_sys_net_core = record {
  resources =
      record { name = "default_qdisc"; mode = 420; size = 1024 }
      ∷ record { name = "somaxconn"; mode = 420; size = 1024 }
      ∷ [];
  opens_all = true;
  accepts = λ name new. if name == "default_qdisc" then is_discipline new else true;
  push = λ name. if name == "default_qdisc" then some write_to_fs else some write_max_int_to_fs;
}

abbrev pub proc_sys_net_unix : Sysctl
proc_sys_net_unix = record {
  resources = record { name = "max_dgram_qlen"; mode = 420; size = 1024 } ∷ [];
  opens_all = false;
  accepts = λ name new. true;
  push = λ name. some write_max_int_to_fs;
}

abbrev pub proc_sys_vm : Sysctl
proc_sys_vm = record {
  resources =
      record { name = "overcommit_memory"; mode = 420; size = 2 }
      ∷ record { name = "mmap_min_addr"; mode = 420; size = 1024 }
      ∷ [];
  opens_all = false;
  accepts = λ name new.
      if name == "overcommit_memory"
      then check_int_range new (pos 0) (pos 2)
      else if name == "mmap_min_addr"
      then check_int_range new (pos 0) (pos (2 ^ 63 - 1))
      else true;
  push = λ name. none;
}

unfoldable pub has_resource : Sysctl → String → Bool
unfolding find_resource
has_resource t name = elim (find_resource t.resources name) [ none ↦ false | some r ↦ true ]

module _ {F G : Type 0} (t : Sysctl) (node : Node F) (agent : FileAgent G)
    (others : ℕ → F → F) where
  unfoldable pub sysctl_lookup : Request → G → Result ℕ NodeInfo
  unfolding find_resource
  sysctl_lookup req g = elim (find_resource t.resources req.name) [
    | some info ↦ ok info
    | none ↦ lookup_through agent g req.path
  ]

  unfoldable pub sysctl_open : Request → G → ℕ → ℕ → Result ℕ Bool
  unfolding has_resource
  sysctl_open req g flags mode =
      if t.opens_all || has_resource t req.name
      then ok false
      else open_with_ns agent all_nss g req.path flags mode

  unfoldable pub sysctl_read : Request → World F G → ℕ → Bytes → Served × DataStore
  unfolding has_resource
  sysctl_read req w offset buffer =
      if has_resource t req.name
      then read_cntr_data node true w.host w.cache req.path offset buffer
      else read_with_ns agent all_nss req.same_ns req.no_cache w.inner w.cache req.path offset
          buffer

  of_host : Result FsError ℕ → Result SysctlError ℕ
  of_host (ok n) = ok n
  of_host (err e) = err (host_error e)

  of_agent : Result ℕ ℕ → Result SysctlError ℕ
  of_agent (ok n) = ok n
  of_agent (err e) = err (agent_error e)

  write_emulated : Request → World F G → ℕ → Bytes → Result SysctlError ℕ × World F G
  unfolding of_host
  write_emulated req w offset new =
      let ((r, cache'), host') =
        write_cntr_data node others true req.ignore_errors (t.push req.name) w.host w.cache req.path
          offset new in
      (of_host r, record w { host = host'; cache = cache' })

  write_inner : Request → World F G → ℕ → Bytes → Result SysctlError ℕ × World F G
  unfolding of_agent
  write_inner req w offset new =
      let ((r, cache'), inner') =
        write_with_ns agent all_nss req.same_ns req.no_cache w.inner w.cache req.path offset new in
      (of_agent r, record w { cache = cache'; inner = inner' })

  unfoldable pub sysctl_write : Request → World F G → ℕ → Bytes → Result SysctlError ℕ × World F G
  unfolding write_emulated write_inner has_resource
  sysctl_write req w offset new =
      if not (has_resource t req.name)
      then write_inner req w offset new
      else if not (t.accepts req.name new)
      then (err (host_error einval), w)
      else write_emulated req w offset new

module _ {F G : Type 0} (node : Node F) (agent : FileAgent G) (others : ℕ → F → F) where
  -- The handler of /proc/sys/fs.
  abbrev fs_lookup : Request → G → Result ℕ NodeInfo
  fs_lookup = sysctl_lookup proc_sys_fs node agent others

  abbrev fs_open : Request → G → ℕ → ℕ → Result ℕ Bool
  fs_open = sysctl_open proc_sys_fs node agent others

  abbrev fs_read : Request → World F G → ℕ → Bytes → Served × DataStore
  fs_read = sysctl_read proc_sys_fs node agent others

  abbrev pub fs_write : Request → World F G → ℕ → Bytes → Result SysctlError ℕ × World F G
  fs_write = sysctl_write proc_sys_fs node agent others

module _ {F G : Type 0} (node : Node F) (agent : FileAgent G) (others : ℕ → F → F) where
  -- The handler of /proc/sys/net/core.
  abbrev net_core_lookup : Request → G → Result ℕ NodeInfo
  net_core_lookup = sysctl_lookup proc_sys_net_core node agent others

  abbrev net_core_open : Request → G → ℕ → ℕ → Result ℕ Bool
  net_core_open = sysctl_open proc_sys_net_core node agent others

  abbrev net_core_read : Request → World F G → ℕ → Bytes → Served × DataStore
  net_core_read = sysctl_read proc_sys_net_core node agent others

  abbrev net_core_write : Request → World F G → ℕ → Bytes → Result SysctlError ℕ × World F G
  net_core_write = sysctl_write proc_sys_net_core node agent others

module _ {F G : Type 0} (node : Node F) (agent : FileAgent G) (others : ℕ → F → F) where
  -- The handler of /proc/sys/net/unix.
  abbrev net_unix_lookup : Request → G → Result ℕ NodeInfo
  net_unix_lookup = sysctl_lookup proc_sys_net_unix node agent others

  abbrev net_unix_open : Request → G → ℕ → ℕ → Result ℕ Bool
  net_unix_open = sysctl_open proc_sys_net_unix node agent others

  abbrev net_unix_read : Request → World F G → ℕ → Bytes → Served × DataStore
  net_unix_read = sysctl_read proc_sys_net_unix node agent others

  abbrev net_unix_write : Request → World F G → ℕ → Bytes → Result SysctlError ℕ × World F G
  net_unix_write = sysctl_write proc_sys_net_unix node agent others

module _ {F G : Type 0} (node : Node F) (agent : FileAgent G) (others : ℕ → F → F) where
  -- The handler of /proc/sys/vm.
  abbrev vm_lookup : Request → G → Result ℕ NodeInfo
  vm_lookup = sysctl_lookup proc_sys_vm node agent others

  abbrev vm_open : Request → G → ℕ → ℕ → Result ℕ Bool
  vm_open = sysctl_open proc_sys_vm node agent others

  abbrev vm_read : Request → World F G → ℕ → Bytes → Served × DataStore
  vm_read = sysctl_read proc_sys_vm node agent others

  abbrev vm_write : Request → World F G → ℕ → Bytes → Result SysctlError ℕ × World F G
  vm_write = sysctl_write proc_sys_vm node agent others
