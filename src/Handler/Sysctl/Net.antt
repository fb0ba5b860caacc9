-- ===== src/Handler/Sysctl/Net.antt =====
-- The handlers of /proc/sys/net/ipv4/vs and /proc/sys/net/netfilter
-- (handler/implementations/procSysNetIpv4Vs.go, procSysNetNetfilter.go), as tables of the handlers
-- in Sysctl.
pub mod Laws
use sysbox_fs.Prelude.{
  ℕ, ◌-◌, ◌^◌, String, Bool, true, false, ◌&&◌, not, Option, none, some, [], ◌∷◌, ◌==◌, string_eq,
  Result, if◌then◌else◌,
}
use sysbox_fs.Prelude.Int.{ℤ, pos, negsuc, int_eq}
use sysbox_fs.Prelude.Bytes.{Bytes}
use sysbox_fs.State.Data.{DataStore}
use sysbox_fs.Handler.Ints.{check_int_range, write_max_int_to_fs, parse_int}
use sysbox_fs.Handler.Store.{Node, Served}
use sysbox_fs.Handler.PassThrough.{FileAgent, NodeInfo}
use sysbox_fs.Handler.Kernel.{World, Request}
use sysbox_fs.Handler.Sysctl.{
  Sysctl, SysctlError, sysctl_lookup, sysctl_open, sysctl_read, sysctl_write,
}

abbrev pub proc_sys_net_ipv4_vs : Sysctl
proc_sys_net_ipv4_vs = record {
  resources =
      record { name = "conntrack"; mode = 420; size = 2 }
      ∷ record { name = "conn_reuse_mode"; mode = 420; size = 2 }
      ∷ record { name = "expire_nodest_conn"; mode = 420; size = 2 }
      ∷ record { name = "expire_quiescent_template"; mode = 420; size = 2 }
      ∷ [];
  opens_all = true;
  accepts = λ name new.
      if name == "conntrack"
      then true
      else if name == "conn_reuse_mode"
      then check_int_range new (pos 0) (pos 1)
      else check_int_range new (negsuc (2 ^ 31 - 1)) (pos (2 ^ 31 - 1));
  push = λ name. if name == "conntrack" then some write_max_int_to_fs else none;
}

liberal : Option ℤ → Option ℤ → Option Bool
liberal none curr = none
liberal (some new) none = none
liberal (some new) (some curr) = some (not (new == curr) && not (new == pos 0))

-- `none` is an error.
unfoldable pub write_tcp_liberal : Bytes → Bytes → Option Bool
unfolding liberal
write_tcp_liberal curr new = liberal (parse_int new) (parse_int curr)

abbrev pub proc_sys_net_netfilter : Sysctl
proc_sys_net_netfilter = record {
  resources =
      record { name = "nf_conntrack_max"; mode = 420; size = 1024 }
      ∷ record { name = "nf_conntrack_generic_timeout"; mode = 420; size = 1024 }
      ∷ record { name = "nf_conntrack_tcp_be_liberal"; mode = 420; size = 2 }
      ∷ record { name = "nf_conntrack_tcp_timeout_established"; mode = 420; size = 1024 }
      ∷ record { name = "nf_conntrack_tcp_timeout_close_wait"; mode = 420; size = 1024 }
      ∷ [];
  opens_all = true;
  accepts = λ name new. true;
  push = λ name.
      if name == "nf_conntrack_tcp_be_liberal"
      then some write_tcp_liberal
      else some write_max_int_to_fs;
}

module _ {F G : Type 0} (node : Node F) (agent : FileAgent G) (others : ℕ → F → F) where
  -- The handler of /proc/sys/net/ipv4/vs.
  abbrev vs_lookup : Request → G → Result ℕ NodeInfo
  vs_lookup = sysctl_lookup proc_sys_net_ipv4_vs node agent others

  abbrev vs_open : Request → G → ℕ → ℕ → Result ℕ Bool
  vs_open = sysctl_open proc_sys_net_ipv4_vs node agent others

  abbrev vs_read : Request → World F G → ℕ → Bytes → Served × DataStore
  vs_read = sysctl_read proc_sys_net_ipv4_vs node agent others

  abbrev pub vs_write : Request → World F G → ℕ → Bytes → Result SysctlError ℕ × World F G
  vs_write = sysctl_write proc_sys_net_ipv4_vs node agent others

module _ {F G : Type 0} (node : Node F) (agent : FileAgent G) (others : ℕ → F → F) where
  -- The handler of /proc/sys/net/netfilter.
  abbrev netfilter_lookup : Request → G → Result ℕ NodeInfo
  netfilter_lookup = sysctl_lookup proc_sys_net_netfilter node agent others

  abbrev netfilter_open : Request → G → ℕ → ℕ → Result ℕ Bool
  netfilter_open = sysctl_open proc_sys_net_netfilter node agent others

  abbrev netfilter_read : Request → World F G → ℕ → Bytes → Served × DataStore
  netfilter_read = sysctl_read proc_sys_net_netfilter node agent others

  abbrev pub netfilter_write : Request → World F G → ℕ → Bytes → Result SysctlError ℕ × World F G
  netfilter_write = sysctl_write proc_sys_net_netfilter node agent others
