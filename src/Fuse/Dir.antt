-- ===== src/Fuse/Dir.antt =====
-- The requests on a directory (fuse/dir.go).
pub mod Laws
use Prim.Native.Nat.{bit_or}
use sysbox_fs.Prelude.{
  ℕ, String, Bool, true, false, ◌&&◌, ◌||◌, not, Option, none, some, List, [], ◌∷◌, map, keep, ◌==◌,
  string_eq, Result, ok, err, if◌then◌else◌,
}
use sysbox_fs.Prelude.Maps.{lookup, insert}
use sysbox_fs.Text.{join}
use sysbox_fs.Fuse.Node.{
  Attr, empty_attr, mode_dir, mode_symlink, is_regular, is_symlink, DomainFileInfo, FuseNode,
  FuseCaller, IoNode, HandlerRequest, HandlerError, eof, FuseHandler, Services, Server, FuseError,
  no_root_ids, enoent, no_container, of_handler, convert_file_info_to_fuse,
}
use sysbox_fs.Fuse.File.{
  FsState, FsAnswer, answer, refusal, handler_for, file_open, open_flags_of, node_of, request_of,
}

-- fuse.Dirent, without a type for what is no directory, regular file or link.
pub data DirentType : Type 0 where
  dt_dir dt_file dt_link dt_unknown : DirentType

pub record Dirent : Type 0 where
  pub name : String
  pub kind : DirentType

-- The node and the request of a lookup and of a creation.
abbrev pub entry_node : String → String → ℕ → ℕ → IoNode
entry_node name path flags mode = record {
  name = name;
  path = path;
  mode = 0;
  open_flags = flags;
  open_mode = mode;
}

abbrev pub entry_request : String → String → FuseCaller → HandlerRequest
entry_request name path caller = record { name = name; path = path; caller = caller; offset = 0 }

mode_of : DomainFileInfo → ℕ → ℕ
mode_of info mode =
    if info.is_dir
    then bit_or mode mode_dir
    else if is_symlink info.mode
    then bit_or mode mode_symlink
    else mode

-- The node of a lookup, with the root user of the caller's user namespace as the owner unless the
-- handler has refused it.
new_node : String → String → DomainFileInfo → Bool → ℕ × ℕ → FuseNode
unfolding mode_of convert_file_info_to_fuse
new_node name path info skip (uid, gid) =
    let a = convert_file_info_to_fuse info in
    record {
      is_dir = info.is_dir;
      name = name;
      path = path;
      attr = record a {
        uid = if skip then a.uid else uid;
        gid = if skip then a.gid else gid;
        mode = mode_of info a.mode;
      };
      skip_id_remap = skip;
    }

add_node : {W : Type 0} → String → FuseNode → FsState W → FsState W
add_node path node x = record x {
  server = record x.server { node_db = insert path node x.server.node_db };
}

kind_of : DomainFileInfo → DirentType
kind_of info =
    if info.is_dir
    then dt_dir
    else if is_regular info.mode
    then dt_file
    else if is_symlink info.mode
    then dt_link
    else dt_unknown

-- The entries of the root directory that are listed.
abbrev pub is_listed : String → String → Bool
is_listed dir name = not (dir == "/") || (name == "sys" || name == "proc" || name == "testing")

unfoldable pub dirents : String → List DomainFileInfo → List Dirent
unfolding kind_of
dirents dir files =
    map (λ info. record { name = info.name; kind = kind_of info })
      (keep (λ info. is_listed dir info.name) files)

module _ {W : Type 0} (services : Services W) where
  -- A lookup that the node table does not answer.
  unfoldable pub lookup_fresh : String → String → FuseCaller → FsState W → FsAnswer FuseNode
  unfolding new_node handler_for
  lookup_fresh name path caller x = elim (handler_for services x.server path) [
    | err e ↦ refusal e
    | ok h ↦ elim (h.lookup x.files (entry_node name path 0 0) (entry_request name path caller)) [
      | err e ↦ refusal enoent
      | ok (info, skip) ↦ elim (services.root_ids_of caller) [
        | none ↦ refusal no_root_ids
        | some ids ↦ answer (new_node name path info skip ids)
      ]
    ]
  ]

  unfoldable pub keep_node : String → FsState W → FsAnswer FuseNode → FsAnswer FuseNode × FsState W
  unfolding add_node
  keep_node path x (answer node) = (answer node, add_node path node x)
  keep_node path x r = (r, x)

  -- Lookup.
  unfoldable pub dir_lookup :
      FuseNode → String → FuseCaller → FsState W → FsAnswer FuseNode × FsState W
  unfolding keep_node
  dir_lookup d name caller x =
      let path = join d.path name in
      elim (lookup path x.server.node_db) [
        | some node ↦ (answer node, x)
        | none ↦ keep_node path x (lookup_fresh name path caller x)
      ]

  -- Open.
  unfoldable pub dir_open : FuseNode → FuseCaller → ℕ → ℕ → FsState W → FsAnswer ℕ × FsState W
  unfolding file_open
  dir_open d caller flags resp_flags x = elim x.server.container [
    | none ↦ (refusal no_container, x)
    | some c ↦ file_open services d caller flags resp_flags x
  ]

  -- The end of a creation: its node has the owner and mode that the handler tells.
  created :
      FuseHandler W
      → String
      → String
      → FuseCaller
      → ℕ
      → ℕ
      → ℕ
      → Bool
      → FsState W
      → FsAnswer (FuseNode × ℕ) × FsState W
  unfolding add_node convert_file_info_to_fuse
  created h name path caller flags mode resp_flags non_seekable x =
      elim (h.lookup x.files (entry_node name path flags mode) (entry_request name path caller)) [
        | err e ↦ (refusal enoent, x)
        | ok (info, skip) ↦
            let node : FuseNode = record {
              is_dir = false;
              name = name;
              path = path;
              attr = convert_file_info_to_fuse info;
              skip_id_remap = skip;
            } in
            (answer (node, open_flags_of non_seekable resp_flags), add_node path node x)
      ]

  after_create :
      FuseHandler W
      → String
      → String
      → FuseCaller
      → ℕ
      → ℕ
      → ℕ
      → FsState W
      → Result HandlerError Bool × W
      → FsAnswer (FuseNode × ℕ) × FsState W
  unfolding created
  after_create h name path caller flags mode resp_flags x (ok non_seekable, w) =
      created h name path caller flags mode resp_flags non_seekable (record x { files = w })
  after_create h name path caller flags mode resp_flags x (err eof, w) =
      created h name path caller flags mode resp_flags false (record x { files = w })
  after_create h name path caller flags mode resp_flags x (err (HandlerError.errno_of e), w) =
      (refusal (of_handler (HandlerError.errno_of e)), record x { files = w })

  -- Create; the answer is the node, which is the handle too, and the flags of the response.
  unfoldable pub dir_create :
      FuseNode → String → FuseCaller → ℕ → ℕ → ℕ → FsState W → FsAnswer (FuseNode × ℕ) × FsState W
  unfolding after_create handler_for
  dir_create d name caller flags mode resp_flags x =
      let path = join d.path name in
      elim (handler_for services x.server path) [
        | err e ↦ (refusal e, x)
        | ok h ↦
            after_create h name path caller flags mode resp_flags x (
              h.open_node x.files (entry_node name path flags mode)
                (entry_request name path caller))
      ]

  -- ReadDirAll.
  unfoldable pub dir_read_all : FuseNode → FuseCaller → ℕ → FsState W → FsAnswer (List Dirent)
  unfolding dirents handler_for
  dir_read_all d caller flags x = elim (handler_for services x.server d.path) [
    | err e ↦ refusal e
    | ok h ↦ elim (h.read_dir_all x.files (node_of d 0 flags) (request_of caller 0)) [
      | err e ↦ refusal enoent
      | ok files ↦ answer (dirents d.path files)
    ]
  ]

  -- Mkdir: a node, and no call of a handler.
  unfoldable pub dir_mkdir : FuseNode → String → FsState W → FsAnswer FuseNode
  dir_mkdir d name x = elim x.server.container [
    | none ↦ refusal no_container
    | some c ↦ answer (record {
      is_dir = true;
      name = name;
      path = join d.path name;
      attr = empty_attr;
      skip_id_remap = false;
    })
  ]
