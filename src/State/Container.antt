-- ===== src/State/Container.antt =====
-- The container object (state/container.go) without its locks, its mountinfo parser (the parameter
-- `container_info` of the seccomp handlers) and its back pointer to the one service.
use sysbox_fs.Prelude.{
  ℕ, String, Bool, false, true, Option, none, some, List, [], ◌==◌, nat_eq, if◌then◌else◌,
}
use sysbox_fs.State.Data.{DataStore}

-- `prs.ProcessCreate(pid, uid, gid)`.
pub record ProcessRef : Type 0 where
  pub pid : ℕ
  pub uid : ℕ
  pub gid : ℕ

pub record Container : Type 0 where
  pub id : String
  pub init_pid : ℕ
  pub init_pid_fd : ℕ
  pub root_inode : ℕ
  pub ctime : ℕ
  pub uid_first : ℕ
  pub uid_size : ℕ
  pub gid_first : ℕ
  pub gid_size : ℕ
  pub reg_completed : Bool
  pub proc_ro_paths : List String
  pub proc_mask_paths : List String
  pub data_store : DataStore
  pub init_proc : Option ProcessRef
  pub netns_inode : ℕ

-- The attributes that sysbox-runc sends (`grpc.ContainerData`).
pub record ContainerData : Type 0 where
  pub id : String
  pub netns : String
  pub init_pid : ℕ
  pub ctime : ℕ
  pub uid_first : ℕ
  pub uid_size : ℕ
  pub gid_first : ℕ
  pub gid_size : ℕ
  pub proc_ro_paths : List String
  pub proc_mask_paths : List String

-- `&container{id: id, service: css}`.
abbrev pub blank : String → Container
blank id = record {
  id = id;
  init_pid = 0;
  init_pid_fd = 0;
  root_inode = 0;
  ctime = 0;
  uid_first = 0;
  uid_size = 0;
  gid_first = 0;
  gid_size = 0;
  reg_completed = false;
  proc_ro_paths = [];
  proc_mask_paths = [];
  data_store = [];
  init_proc = none;
  netns_inode = 0;
}

-- newContainer, on the attributes of a message.
unfoldable pub new_container : ContainerData → Container
new_container d = record (blank d.id) {
  init_pid = d.init_pid;
  ctime = d.ctime;
  uid_first = d.uid_first;
  uid_size = d.uid_size;
  gid_first = d.gid_first;
  gid_size = d.gid_size;
  proc_ro_paths = d.proc_ro_paths;
  proc_mask_paths = d.proc_mask_paths;
}

-- The kernel, as the container and its service ask it: the inode of a process' root, the value and
-- the success of opening a pidfd, and the inode of a network namespace, by its path or its process.
pub record Kernel : Type 0 where
  pub root_inode_of : ℕ → ℕ
  pub pidfd_open : ℕ → ℕ × Bool
  pub netns_of_path : String → Option ℕ
  pub netns_of_pid : ℕ → Option ℕ

copy_attributes : Container → Container → Container
copy_attributes c src = record c {
  ctime = src.ctime;
  uid_first = src.uid_first;
  uid_size = src.uid_size;
  gid_first = src.gid_first;
  gid_size = src.gid_size;
  proc_ro_paths = src.proc_ro_paths;
  proc_mask_paths = src.proc_mask_paths;
}

adopt_init : Kernel → Container → Container → Container
adopt_init k c src = record c {
  init_proc = some (record { pid = src.init_pid; uid = src.uid_first; gid = src.gid_first });
  init_pid = src.init_pid;
  root_inode = k.root_inode_of src.init_pid;
  init_pid_fd = (k.pidfd_open src.init_pid).0;
}

-- `update`: the container afterwards, and whether the update succeeded.
unfoldable pub update : Kernel → Container → Container → Container × Bool
unfolding copy_attributes adopt_init
update k c src =
    if c.init_pid == src.init_pid
    then (copy_attributes c src, true)
    else if (k.pidfd_open src.init_pid).1
    then (copy_attributes (adopt_init k c src) src, true)
    else (adopt_init k c src, false)
