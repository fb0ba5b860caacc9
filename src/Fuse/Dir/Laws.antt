-- ===== src/Fuse/Dir/Laws.antt =====
-- Creations, and a server without a container.
use sysbox_fs.Prelude.{
  ℕ, ◌≡◌, String, Bool, false, some, Result, ok, err, string_eq, arith, Result-cases, inl, inr,
  eq_iff,
}
use sysbox_fs.Prelude.Maps.{lookup, lookup-insert}
use sysbox_fs.Text.{join}
use sysbox_fs.Fuse.Node.{FuseNode, FuseCaller, Services, FuseHandler, HandlerError, eof}
use sysbox_fs.Fuse.File.{FsState, answer, handler_for}
use sysbox_fs.Fuse.Run.Laws.{lookup_hit}
use sysbox_fs.Fuse.Dir.{
  dir_lookup, dir_create, after_create, created, add_node, entry_node, entry_request,
}

module _ {W : Type 0} (services : Services W) where
  added :
      (path : String) (node : FuseNode) (x : FsState W)
      → lookup path (add_node path node x).server.node_db ≡ some node
  unfolding add_node
  added path node x =
      ground (arith, lookup-insert path path node x.server.node_db, eq_iff path path)

  created-kept :
      (h : FuseHandler W) (name path : String) (c : FuseCaller) (flags mode resp : ℕ)
      (non_seekable : Bool) (x x' : FsState W) (node : FuseNode) (fl : ℕ)
      → created services h name path c flags mode resp non_seekable x ≡ (answer (node, fl), x')
      → lookup path x'.server.node_db ≡ some node
  unfolding created
  created-kept h name path c flags mode resp non_seekable x x' node fl e =
      elim (Result-cases
        (h.lookup x.files (entry_node name path flags mode) (entry_request name path c))) [
          | inl ((info, skip), f) ↦ ground (arith, added path node x)
          | inr (e', f) ↦ absurd (ground arith)
        ]

  after_create-kept :
      (h : FuseHandler W) (name path : String) (c : FuseCaller) (flags mode resp : ℕ)
      (x x' : FsState W) (opened : Result HandlerError Bool × W) (node : FuseNode) (fl : ℕ)
      → after_create services h name path c flags mode resp x opened ≡ (answer (node, fl), x')
      → lookup path x'.server.node_db ≡ some node
  unfolding after_create
  after_create-kept h name path c flags mode resp x x' (ok b, w) node fl e =
      created-kept h name path c flags mode resp b _ x' node fl e
  after_create-kept h name path c flags mode resp x x' (err eof, w) node fl e =
      created-kept h name path c flags mode resp false _ x' node fl e
  after_create-kept h name path c flags mode resp x x' (err (HandlerError.errno_of k), w) node fl
        e =
      absurd (ground arith)

  -- After a creation with success, a lookup of the same name in the same directory, by any caller,
  -- gives the node that the creation gave, and changes nothing.
  pub dir_create-lookup :
      (d : FuseNode) (name : String) (c : FuseCaller) (flags mode resp : ℕ) (x x' : FsState W)
      (node : FuseNode) (fl : ℕ)
      → dir_create services d name c flags mode resp x ≡ (answer (node, fl), x')
      → (c' : FuseCaller) → dir_lookup services d name c' x' ≡ (answer node, x')
  unfolding dir_create
  dir_create-lookup d name c flags mode resp x x' node fl e c' =
      elim (Result-cases (handler_for services x.server (join d.path name))) [
        | inr (k, f) ↦ absurd (ground arith)
        | inl (h, f) ↦ lookup_hit services d name c' x' node (
            after_create-kept h name (join d.path name) c flags mode resp x x' _ node fl
              (rw (f, dir_create) at e))
      ]
