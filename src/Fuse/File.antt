-- ===== src/Fuse/File.antt =====
-- The requests on a file (fuse/file.go).
pub mod Laws
use Prim.Native.Nat.{bit_or}
use sysbox_fs.Prelude.{
  ℕ, zero, suc, ◌-◌, ◌^◌, String, Bool, true, false, ◌&&◌, not, Option, none, some, List, [], ◌∷◌,
  ◌==◌, nat_eq, string_eq, leb, length, take, Result, ok, err, if◌then◌else◌,
}
use sysbox_fs.Prelude.Maps.{delete}
use sysbox_fs.Prelude.Bytes.{Bytes}
use sysbox_fs.Fuse.Node.{
  Attr, FuseNode, FuseCaller, IoNode, HandlerRequest, HandlerError, eof, FuseHandler, Services,
  Server, FuseError, no_container, no_handler, eperm, of_handler,
}

-- A server, and what its handlers work on.
pub record FsState (W : Type 0) : Type 0 where
  pub server : Server
  pub files : W

-- The results of a request; `panic` is the end of the program.
pub data FsAnswer (A : Type 0) : Type 0 where
  answer : A → FsAnswer A
  refusal : FuseError → FsAnswer A
  panic : FsAnswer A

-- DentryCacheTimeout and AttribCacheTimeout.
abbrev pub cache_timeout : ℕ
cache_timeout = 2 ^ 63 - 1

-- fuse.OpenDirectIO and fuse.OpenNonSeekable.
abbrev pub open_direct_io : ℕ
open_direct_io = 1

abbrev pub open_non_seekable : ℕ
open_non_seekable = 4

unfoldable pub open_flags_of : Bool → ℕ → ℕ
open_flags_of non_seekable flags =
    if non_seekable
    then bit_or (bit_or flags open_direct_io) open_non_seekable
    else bit_or flags open_direct_io

-- The node and the request that a handler gets, but for a lookup and a creation.
abbrev pub node_of : FuseNode → ℕ → ℕ → IoNode
node_of f mode flags = record {
  name = f.name;
  path = f.path;
  mode = mode;
  open_flags = flags;
  open_mode = 0;
}

abbrev pub request_of : FuseCaller → ℕ → HandlerRequest
request_of caller offset = record { name = ""; path = ""; caller = caller; offset = offset }

-- `err != nil && err != io.EOF`.
abbrev pub failure : Option HandlerError → Option HandlerError
failure none = none
failure (some eof) = none
failure (some (HandlerError.errno_of e)) = some (HandlerError.errno_of e)

-- ContainerUID and ContainerGID: `none` is the call of a method of a nil container.
unfoldable pub container_uid_of : Server → Option (ℕ × Server)
container_uid_of s =
    if s.container_uid == 0
    then elim s.container [
      | none ↦ none
      | some (uid, gid) ↦ some (uid, record s { container_uid = uid })
    ]
    else some (s.container_uid, s)

unfoldable pub container_gid_of : Server → Option (ℕ × Server)
container_gid_of s =
    if s.container_gid == 0
    then elim s.container [
      | none ↦ none
      | some (uid, gid) ↦ some (gid, record s { container_gid = gid })
    ]
    else some (s.container_gid, s)

mapped_uid : FuseNode → Server → Option (ℕ × Server)
unfolding container_uid_of
mapped_uid f s =
    if f.attr.uid == 0 && not f.skip_id_remap then container_uid_of s else some (f.attr.uid, s)

mapped_gid : FuseNode → Server → Option (ℕ × Server)
unfolding container_gid_of
mapped_gid f s =
    if f.attr.gid == 0 && not f.skip_id_remap then container_gid_of s else some (f.attr.gid, s)

module _ {W : Type 0} (services : Services W) where
  -- Attr.
  unfoldable pub file_attr : FuseNode → FsState W → FsAnswer Attr × FsState W
  unfolding mapped_uid mapped_gid
  file_attr f x = elim (mapped_uid f x.server) [
    | none ↦ (panic, x)
    | some (uid, s) ↦ elim (mapped_gid f s) [
      | none ↦ (panic, record x { server = s })
      | some (gid, s') ↦ (
        answer (record f.attr {
          uid = uid;
          gid = gid;
          valid = if s'.cntr_reg then cache_timeout else 0;
        }),
        record x { server = s' },
      )
    ]
  ]

  -- The start of each request: the container, and the handler of a path.
  unfoldable pub handler_for : Server → String → Result FuseError (FuseHandler W)
  handler_for s path = elim s.container [
    | none ↦ err no_container
    | some c ↦ elim (services.handler_of path) [ none ↦ err no_handler | some h ↦ ok h ]
  ]

  opened_answer : ℕ → FsState W → Result HandlerError Bool × W → FsAnswer ℕ × FsState W
  opened_answer flags x (ok non_seekable, w) =
      (answer (open_flags_of non_seekable flags), record x { files = w })
  opened_answer flags x (err eof, w) = (answer (open_flags_of false flags), record x { files = w })
  opened_answer flags x (err (HandlerError.errno_of e), w) =
      (refusal (of_handler (HandlerError.errno_of e)), record x { files = w })

  -- Open; the answer is the flags of the response.
  unfoldable pub file_open : FuseNode → FuseCaller → ℕ → ℕ → FsState W → FsAnswer ℕ × FsState W
  unfolding handler_for opened_answer
  file_open f caller flags resp_flags x = elim (handler_for x.server f.path) [
    | err e ↦ (refusal e, x)
    | ok h ↦
        opened_answer resp_flags x
          (h.open_node x.files (node_of f f.attr.mode flags) (request_of caller 0))
  ]

  -- `handlerReq.Data[:n]` panics beyond the capacity of the buffer.
  read_answer : FsState W → (ℕ × Bytes × Option HandlerError) × W → FsAnswer Bytes × FsState W
  read_answer x ((n, buffer, e), w) = elim (failure e) [
    | some e' ↦ (refusal (of_handler e'), record x { files = w })
    | none ↦
        if leb n (length buffer)
        then (answer (take n buffer), record x { files = w })
        else (panic, record x { files = w })
  ]

  -- Read, with the buffer that it makes.
  zeros : ℕ → Bytes
  zeros zero = []
  zeros (suc n) = 0 ∷ zeros n

  unfoldable pub file_read : FuseNode → FuseCaller → ℕ → ℕ → FsState W → FsAnswer Bytes × FsState W
  unfolding handler_for read_answer zeros
  file_read f caller offset size x = elim (handler_for x.server f.path) [
    | err e ↦ (refusal e, x)
    | ok h ↦
        read_answer x
          (h.read x.files (node_of f f.attr.mode 0) (request_of caller offset) (zeros size))
  ]

  written_answer : FsState W → (ℕ × Option HandlerError) × W → FsAnswer ℕ × FsState W
  written_answer x ((n, e), w) = elim (failure e) [
    | some e' ↦ (refusal (of_handler e'), record x { files = w })
    | none ↦ (answer n, record x { files = w })
  ]

  -- Write: the offset of the request does not reach the handler.
  unfoldable pub file_write : FuseNode → FuseCaller → ℕ → Bytes → FsState W → FsAnswer ℕ × FsState W
  unfolding handler_for written_answer
  file_write f caller offset content x = elim (handler_for x.server f.path) [
    | err e ↦ (refusal e, x)
    | ok h ↦
        written_answer x (h.write x.files (node_of f f.attr.mode 0) (request_of caller 0) content)
  ]

  link_answer : String × Option HandlerError → FsAnswer String
  link_answer (link, e) = elim (failure e) [
    | some e' ↦ refusal (of_handler e')
    | none ↦ answer link
  ]

  unfoldable pub file_readlink : FuseNode → FuseCaller → FsState W → FsAnswer String
  unfolding handler_for link_answer
  file_readlink f caller x = elim (handler_for x.server f.path) [
    | err e ↦ refusal e
    | ok h ↦ link_answer (h.read_link x.files (node_of f f.attr.mode 0) (request_of caller 0))
  ]

  -- Setattr, by whether the size is among what is to be set.
  unfoldable pub file_setattr : Bool → FsState W → FsAnswer Bool
  file_setattr sets_size x = elim x.server.container [
    | none ↦ refusal no_container
    | some c ↦ if sets_size then answer true else refusal eperm
  ]

  -- Forget.
  unfoldable pub file_forget : FuseNode → FsState W → FsState W
  file_forget f x = record x {
    server = record x.server { node_db = delete f.path x.server.node_db };
  }
