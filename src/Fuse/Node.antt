-- ===== src/Fuse/Node.antt =====
-- Nodes of the file system and their attributes (File, Dir and convertFileInfoToFuse of fuse/file.go
-- and fuse/dir.go), the server of a container (fuse/server.go), and what the handlers are asked.
use Prim.Native.Nat.{bit_and}
use sysbox_fs.Prelude.{
  ℕ, ◌^◌, ◌%◌, String, Bool, not, Option, none, some, List, ◌==◌, nat_eq, Result,
}
use sysbox_fs.Prelude.Maps.{Map}
use sysbox_fs.Prelude.Bytes.{Bytes}

-- syscall.Stat_t; times are those of time.Unix.
pub record Stat : Type 0 where
  pub ino : ℕ
  pub blocks : ℕ
  pub atim : ℕ
  pub mtim : ℕ
  pub ctim : ℕ
  pub mode : ℕ
  pub nlink : ℕ
  pub uid : ℕ
  pub gid : ℕ
  pub rdev : ℕ
  pub blksize : ℕ

-- domain.FileInfo; the mode is an os.FileMode, and `sys` is nil for emulated nodes.
pub record DomainFileInfo : Type 0 where
  pub name : String
  pub size : ℕ
  pub mode : ℕ
  pub mod_time : ℕ
  pub is_dir : Bool
  pub sys : Option Stat

-- fuse.Attr.
pub record Attr : Type 0 where
  pub valid : ℕ
  pub inode : ℕ
  pub size : ℕ
  pub blocks : ℕ
  pub atime : ℕ
  pub mtime : ℕ
  pub ctime : ℕ
  pub mode : ℕ
  pub nlink : ℕ
  pub uid : ℕ
  pub gid : ℕ
  pub rdev : ℕ
  pub block_size : ℕ

abbrev pub empty_attr : Attr
empty_attr = record {
  valid = 0;
  inode = 0;
  size = 0;
  blocks = 0;
  atime = 0;
  mtime = 0;
  ctime = 0;
  mode = 0;
  nlink = 0;
  uid = 0;
  gid = 0;
  rdev = 0;
  block_size = 0;
}

-- os.ModeDir, os.ModeSymlink and os.ModeType.
abbrev pub mode_dir : ℕ
mode_dir = 2 ^ 31

abbrev pub mode_symlink : ℕ
mode_symlink = 2 ^ 27

abbrev pub mode_type : ℕ
mode_type = 2401763328

abbrev pub is_regular : ℕ → Bool
is_regular mode = bit_and mode mode_type == 0

abbrev pub is_symlink : ℕ → Bool
is_symlink mode = not (bit_and mode mode_symlink == 0)

-- The mode is copied as it is: the kernel's bits of a file's type are not those of os.FileMode.
unfoldable pub convert_file_info_to_fuse : DomainFileInfo → Attr
convert_file_info_to_fuse info = elim info.sys [
  | none ↦ record empty_attr {
    size = info.size;
    mode = info.mode;
    mtime = info.mod_time;
    nlink = 1;
    block_size = 1024;
  }
  | some stat ↦ record {
    valid = 0;
    inode = stat.ino;
    size = info.size;
    blocks = stat.blocks;
    atime = stat.atim;
    mtime = stat.mtim;
    ctime = stat.ctim;
    mode = stat.mode;
    nlink = stat.nlink % 2 ^ 32;
    uid = stat.uid;
    gid = stat.gid;
    rdev = stat.rdev % 2 ^ 32;
    block_size = stat.blksize % 2 ^ 32;
  }
]

-- A *File, or a *Dir around one.
pub record FuseNode : Type 0 where
  pub is_dir : Bool
  pub name : String
  pub path : String
  pub attr : Attr
  pub skip_id_remap : Bool

-- The process that a FUSE request comes from.
pub record FuseCaller : Type 0 where
  pub pid : ℕ
  pub uid : ℕ
  pub gid : ℕ

-- domain.IOnodeIface, as made for one request.
pub record IoNode : Type 0 where
  pub name : String
  pub path : String
  pub mode : ℕ
  pub open_flags : ℕ
  pub open_mode : ℕ

-- domain.HandlerRequest; Data is an argument of its own.
pub record HandlerRequest : Type 0 where
  pub name : String
  pub path : String
  pub caller : FuseCaller
  pub offset : ℕ

pub data HandlerError : Type 0 where
  eof : HandlerError
  errno_of : ℕ → HandlerError

-- domain.HandlerIface over the state W that the handlers work on. A lookup also says whether it has set
-- SkipIdRemap; a read gives the number of bytes, the buffer that it leaves in Data, and the error.
pub record FuseHandler (W : Type 0) : Type 0 where
  pub open_node : W → IoNode → HandlerRequest → Result HandlerError Bool × W
  pub lookup : W → IoNode → HandlerRequest → Result HandlerError (DomainFileInfo × Bool)
  pub read : W → IoNode → HandlerRequest → Bytes → (ℕ × Bytes × Option HandlerError) × W
  pub write : W → IoNode → HandlerRequest → Bytes → (ℕ × Option HandlerError) × W
  pub read_dir_all : W → IoNode → HandlerRequest → Result HandlerError (List DomainFileInfo)
  pub read_link : W → IoNode → HandlerRequest → String × Option HandlerError

-- The services: LookupHandler, and UsernsRootUidGid of the process of a caller.
pub record Services (W : Type 0) : Type 0 where
  pub handler_of : String → Option (FuseHandler W)
  pub root_ids_of : FuseCaller → Option (ℕ × ℕ)

-- The fields of a fuseServer that its requests use. The container is its uid and gid; `none` is nil.
pub record Server : Type 0 where
  pub node_db : Map String FuseNode
  pub container : Option (ℕ × ℕ)
  pub container_uid : ℕ
  pub container_gid : ℕ
  pub cntr_reg : Bool

-- An error of a request. `no_container`, `no_handler` and `no_root_ids` are errors without a number.
pub data FuseError : Type 0 where
  no_container no_handler no_root_ids enoent eperm : FuseError
  of_handler : HandlerError → FuseError
