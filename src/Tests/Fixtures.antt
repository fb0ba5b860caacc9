-- ===== src/Tests/Fixtures.antt =====
-- A container with a read-only /proc, an emulated file in it and a volume, and a process of it that
-- has a read-only mount of its own.
use sysbox_fs.Prelude.{ℕ, ◌+◌, String, true, false, none, some, List, [], ◌∷◌}
use sysbox_fs.Prelude.Int.{pos}
use sysbox_fs.Mount.Info.{MountInfo, MountPaths, MountInfoParser, new_parser, add_mount}
use sysbox_fs.Mount.Info.Indexed.{IsIndexed, IsIndexed-new, add_mount-IsIndexed}
use sysbox_fs.Mount.Clone.{Agent, Parsers}
use sysbox_fs.Seccomp.Tracer.{ParserState}
use sysbox_fs.Seccomp.Context.{SyscallCtx, ProcessView, MountPayload, Event, Reply, response}

abbrev pub paths : MountPaths
paths = record {
  proc_ro_paths = "/bus" ∷ [];
  proc_mask_paths = "/keys" ∷ [];
  proc_mounts = "/uptime" ∷ "/sys" ∷ [];
  sys_mounts = "/kernel" ∷ [];
}

abbrev pub entry : ℕ → ℕ → String → String → String → String → MountInfo
entry id parent dev fs mp opt = record {
  mount_id = pos id;
  parent_id = pos parent;
  major_minor_ver = dev;
  root = "/";
  mount_point = mp;
  options = (opt, "") ∷ [];
  optional_fields = [];
  fs_type = fs;
  source = fs;
  vfs_options = (opt, "") ∷ [];
  mp_inode = 0;
}

abbrev pub root_entry : MountInfo
root_entry = entry 1 0 "8:1" "ext4" "/" "rw"

abbrev pub proc_entry : MountInfo
proc_entry = entry 2 1 "0:5" "proc" "/proc" "ro"

abbrev pub uptime_entry : MountInfo
uptime_entry = entry 3 2 "0:6" "fuse" "/proc/uptime" "rw"

abbrev pub volume_entry : MountInfo
volume_entry = entry 4 1 "8:2" "xfs" "/data" "rw"

abbrev pub work_entry : MountInfo
work_entry = entry 9 1 "0:9" "tmpfs" "/work" "ro"

-- A mount on top of /proc.
abbrev pub cover_entry : MountInfo
cover_entry = entry 10 2 "0:10" "tmpfs" "/proc" "rw"

abbrev pub initial : MountInfoParser
initial = new_parser true paths

abbrev pub container_mounts : MountInfoParser
container_mounts =
    add_mount (add_mount (add_mount (add_mount initial root_entry) proc_entry) uptime_entry)
      volume_entry

abbrev pub process_mounts : MountInfoParser
process_mounts = add_mount container_mounts work_entry

abbrev pub covered_mounts : MountInfoParser
covered_mounts = add_mount container_mounts cover_entry

abbrev pub parsers : Parsers
parsers = record { container = container_mounts; process = process_mounts }

abbrev pub numbered : ℕ → List String → List ℕ
numbered n [] = []
numbered n (mp ∷ mps) = n ∷ numbered (n + 1) mps

abbrev pub agent : Agent
agent mps = some (numbered 7 mps)

abbrev pub reachable : Event → Reply
reachable e = response

abbrev pub view : ℕ → ProcessView
view ns = record { root = "/"; root_inode = 2; mount_ns = some ns }

-- A process in the mount namespace `ns`; the container's init process is in namespace 1.
abbrev pub caller : ℕ → SyscallCtx
caller ns = record {
  req_id = 5;
  pid = 100;
  uid = 0;
  gid = 0;
  cwd = "/";
  root = "/";
  process_info = view ns;
  init_proc = view 1;
  eff_caps = (0, 0);
  allow_immutable_remounts = false;
  allow_immutable_unmounts = false;
  debug_level = false;
  depth = 8;
  inodes = agent;
  file_exists = λ path. true;
  nsenter = reachable;
}

abbrev pub request : String → String → String → ℕ → MountPayload
request source target fs flags = record {
  header = none;
  source = source;
  target = target;
  fs_type = fs;
  flags = flags;
  mount_data = "";
}

abbrev pub parser_state : ParserState
parser_state = record {
  container_info = some container_mounts;
  new_container_info = none;
  process_info = some process_mounts;
}

pub container-IsIndexed : IsIndexed container_mounts
container-IsIndexed = add_mount-IsIndexed _ _ (
    add_mount-IsIndexed _ _
      (add_mount-IsIndexed _ _ (add_mount-IsIndexed _ _ (IsIndexed-new true paths))))
