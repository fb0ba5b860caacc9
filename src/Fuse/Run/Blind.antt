-- ===== src/Fuse/Run/Blind.antt =====
-- The requests that neither read nor write the node table.
use sysbox_fs.Prelude.{ℕ, ◌≡◌, refl, String, Bool, true, false, List, nat_eq, string_eq, arith}
use sysbox_fs.Prelude.Maps.{Map}
use sysbox_fs.Fuse.Node.{FuseNode, FuseCaller, Services}
use sysbox_fs.Fuse.File.{
  FsState, file_attr, file_open, file_read, file_write, file_readlink, file_setattr, handler_for,
}
use sysbox_fs.Fuse.Dir.{dir_open, dir_read_all, dir_mkdir}
use sysbox_fs.Fuse.Run.{FuseRequest, serve}

abbrev pub with_db : {W : Type 0} → Map String FuseNode → FsState W → FsState W
with_db db x = record x { server = record x.server { node_db = db } }

-- A request that neither reads nor writes the node table, nor changes the container.
abbrev pub IsBlind : {W A : Type 0} → (FsState W → A × FsState W) → Type 0
IsBlind {W} op =
    (db : Map String FuseNode) (x : FsState W)
    → (op (with_db db x) ≡ ((op x).0, with_db db (op x).1))
      × ((op x).1.server.container ≡ x.server.container)

-- All requests but lookups, creations and the forgetting of a node.
abbrev pub is_blind : FuseRequest → Bool
is_blind (FuseRequest.lookup_in d name c) = false
is_blind (FuseRequest.create_in d name c flags mode) = false
is_blind (FuseRequest.forget_of f) = false
is_blind _ = true

module _ {W : Type 0} (services : Services W) where
  file_attr-IsBlind : (f : FuseNode) → IsBlind (file_attr services f)
  unfolding file_attr
  file_attr-IsBlind f db x = (ground arith, ground arith)

  file_open-IsBlind :
      (f : FuseNode) (c : FuseCaller) (flags resp_flags : ℕ)
      → IsBlind (file_open services f c flags resp_flags)
  unfolding file_open
  file_open-IsBlind f c flags resp_flags db x = (ground arith, ground arith)

  file_read-IsBlind :
      (f : FuseNode) (c : FuseCaller) (offset size : ℕ)
      → IsBlind (file_read services f c offset size)
  unfolding file_read
  file_read-IsBlind f c offset size db x = (ground arith, ground arith)

  file_write-IsBlind :
      (f : FuseNode) (c : FuseCaller) (offset : ℕ) (content : List ℕ)
      → IsBlind (file_write services f c offset content)
  unfolding file_write
  file_write-IsBlind f c offset content db x = (ground arith, ground arith)

  dir_open-IsBlind :
      (d : FuseNode) (c : FuseCaller) (flags resp_flags : ℕ)
      → IsBlind (dir_open services d c flags resp_flags)
  unfolding dir_open
  dir_open-IsBlind d c flags resp_flags db x = ground (
    arith,
    (file_open-IsBlind d c flags resp_flags db x).0,
    (file_open-IsBlind d c flags resp_flags db x).1,
  )

  pub serve-IsBlind : (r : FuseRequest) → is_blind r ≡ true → IsBlind (serve services r)
  unfolding serve dir_read_all dir_mkdir file_readlink file_setattr handler_for
  serve-IsBlind (FuseRequest.lookup_in d name c) h db x = absurd (ground arith)
  serve-IsBlind (FuseRequest.create_in d name c flags mode) h db x = absurd (ground arith)
  serve-IsBlind (FuseRequest.read_dir d c flags) h db x = (refl, refl)
  serve-IsBlind (FuseRequest.mkdir_in d name) h db x = (refl, refl)
  serve-IsBlind (FuseRequest.attr_of f) h db x =
      let (e, k) = file_attr-IsBlind f db x in (ground arith, k)
  serve-IsBlind (FuseRequest.open_of f c flags) h db x =
      let (e, k) = file_open-IsBlind f c flags 0 db x in (ground arith, k)
  serve-IsBlind (FuseRequest.open_dir_of d c flags) h db x =
      let (e, k) = dir_open-IsBlind d c flags 0 db x in (ground arith, k)
  serve-IsBlind (FuseRequest.read_from f c offset size) h db x =
      let (e, k) = file_read-IsBlind f c offset size db x in (ground arith, k)
  serve-IsBlind (FuseRequest.write_to f c offset content) h db x =
      let (e, k) = file_write-IsBlind f c offset content db x in (ground arith, k)
  serve-IsBlind (FuseRequest.readlink_of f c) h db x = (refl, refl)
  serve-IsBlind (FuseRequest.setattr_of f sets_size) h db x = (refl, refl)
  serve-IsBlind (FuseRequest.release_of f) h db x = (refl, refl)
  serve-IsBlind (FuseRequest.forget_of f) h db x = absurd (ground arith)
