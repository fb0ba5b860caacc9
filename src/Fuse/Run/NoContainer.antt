-- ===== src/Fuse/Run/NoContainer.antt =====
-- A server whose container is gone (Destroy of fuse/server.go).
use sysbox_fs.Prelude.{
  ◌≡◌, refl, String, Bool, true, false, none, string_eq, nat_eq, arith, Option-cases, inl, inr,
}
use sysbox_fs.Prelude.Maps.{lookup}
use sysbox_fs.Text.{join}
use sysbox_fs.Fuse.Node.{FuseNode, Services, no_container}
use sysbox_fs.Fuse.File.{
  FsState, FsAnswer, answer, refusal, file_attr, file_open, file_read, file_write, file_readlink,
  file_setattr, file_forget, handler_for,
}
use sysbox_fs.Fuse.Dir.{
  dir_lookup, dir_open, dir_create, dir_read_all, dir_mkdir, lookup_fresh, keep_node,
}
use sysbox_fs.Fuse.Run.{FuseRequest, serve}

-- The requests that are no lookups and need the container.
abbrev pub asks_handler : FuseRequest → Bool
asks_handler (FuseRequest.lookup_in d name c) = false
asks_handler (FuseRequest.attr_of f) = false
asks_handler (FuseRequest.release_of f) = false
asks_handler (FuseRequest.forget_of f) = false
asks_handler _ = true

module _ {W : Type 0} (services : Services W) where
  lookup-files :
      (path : String) (x : FsState W) (r : FsAnswer FuseNode)
      → (keep_node services path x r).1.files ≡ x.files
  unfolding keep_node
  lookup-files path x (answer n) = refl
  lookup-files path x (refusal e) = refl
  lookup-files path x FsAnswer.panic = refl

  -- A server without a container changes nothing that the handlers work on, whatever the request; and
  -- each request but a lookup, a request for attributes, a release and a forgetting is refused.
  pub serve-no_container :
      (r : FuseRequest) (x : FsState W)
      → x.server.container ≡ none
      → ((serve services r x).1.files ≡ x.files)
        × (asks_handler r ≡ true → (serve services r x).0 ≡ refusal no_container)
  unfolding serve dir_open dir_create dir_lookup lookup_fresh keep_node file_forget dir_read_all
      dir_mkdir file_attr file_open file_read file_write file_readlink file_setattr handler_for
  serve-no_container (FuseRequest.lookup_in d name c) x gone =
      elim (Option-cases (lookup (join d.path name) x.server.node_db)) [
        | inr (old, found) ↦ (ground arith, λ h. absurd (ground arith))
        | inl absent ↦ (
          ground (
            arith,
            lookup-files (join d.path name) x (lookup_fresh services name (join d.path name) c x),
          ),
          λ h. absurd (ground arith),
        )
      ]
  serve-no_container r x gone = (ground arith, λ h. ground arith)
