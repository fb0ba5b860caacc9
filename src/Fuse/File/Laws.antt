-- ===== src/Fuse/File/Laws.antt =====
-- The owner that a file is shown with.
use sysbox_fs.Prelude.{
  ℕ, ◌≡◌, ◌⊎◌, inl, inr, Bool, false, ◌&&◌, not, none, some, ◌==◌, nat_eq, arith, if◌then◌else◌,
}
use sysbox_fs.Fuse.Node.{FuseNode, Services, Server}
use sysbox_fs.Fuse.File.{FsState, answer, panic, file_attr, cache_timeout, container_uid_of}

-- The ids that are kept are those of the container, or not read yet.
pub record HasIds (s : Server) (uid gid : ℕ) : Type 0 where
  pub known : s.container ≡ some (uid, gid)
  pub uid_kept : (s.container_uid ≡ 0) ⊎ (s.container_uid ≡ uid)
  pub gid_kept : (s.container_gid ≡ 0) ⊎ (s.container_gid ≡ gid)

abbrev pub shown_id : Bool → ℕ → ℕ → ℕ
shown_id skip own container = if own == 0 && not skip then container else own

module _ {W : Type 0} (services : Services W) where
  -- On a server whose kept ids are those of its container or not read yet, Attr gives the attributes
  -- of the node, with the ids of the container for an owner or a group 0 of a node that may be
  -- mapped, to be kept as long as possible once the container is registered and not at all before;
  -- and the kept ids stay those of the container or not read.
  pub file_attr-owner :
      (f : FuseNode) (x : FsState W) (uid gid : ℕ)
      → HasIds x.server uid gid
      → ((file_attr services f x).0
          ≡ answer (record f.attr {
            uid = shown_id f.skip_id_remap f.attr.uid uid;
            gid = shown_id f.skip_id_remap f.attr.gid gid;
            valid = if x.server.cntr_reg then cache_timeout else 0;
          }))
        × HasIds (file_attr services f x).1.server uid gid
  unfolding file_attr
  file_attr-owner f x uid gid h = elim h.uid_kept [
    | inl u ↦ elim h.gid_kept [
      | inl g ↦ (ground arith, ground arith)
      | inr g ↦ (ground arith, ground arith)
    ]
    | inr u ↦ elim h.gid_kept [
      | inl g ↦ (ground arith, ground arith)
      | inr g ↦ (ground arith, ground arith)
    ]
  ]

  -- Without a container the program ends at the attributes of a node of root, where the container's
  -- uid has not been read before.
  pub file_attr-panics :
      (f : FuseNode) (x : FsState W)
      → x.server.container ≡ none
      → x.server.container_uid ≡ 0
      → f.attr.uid ≡ 0
      → f.skip_id_remap ≡ false
      → (file_attr services f x).0 ≡ panic
  unfolding file_attr container_uid_of
  file_attr-panics f x gone unread root mapped = ground arith
