-- ===== src/Fuse/Run/Laws.antt =====
-- The node table as a cache.
use sysbox_fs.Prelude.{
  ◌≡◌, refl, String, Bool, true, false, none, some, List, [], ◌∷◌, ◌==◌, nat_eq, string_eq,
}
use sysbox_fs.Prelude.Maps.{lookup}
use sysbox_fs.Text.{join}
use sysbox_fs.Fuse.Node.{FuseNode, IoNode, FuseCaller, Services, FuseHandler}
use sysbox_fs.Fuse.File.{FsState, FsAnswer, answer}
use sysbox_fs.Fuse.Dir.{dir_lookup, lookup_fresh, keep_node}
use sysbox_fs.Fuse.Run.{FuseRequest, FuseReply, serve}
use sysbox_fs.Fuse.Run.Blind.{with_db}

module _ {W : Type 0} (services : Services W) where
  pub lookup_hit :
      (d : FuseNode) (name : String) (c : FuseCaller) (x : FsState W) (old : FuseNode)
      → lookup (join d.path name) x.server.node_db ≡ some old
      → dir_lookup services d name c x ≡ (answer old, x)
  unfolding dir_lookup
  lookup_hit d name c x old found = rw (found, dir_lookup) refl

  pub lookup_miss :
      (d : FuseNode) (name : String) (c : FuseCaller) (x : FsState W)
      → lookup (join d.path name) x.server.node_db ≡ none
      → dir_lookup services d name c x
        ≡ keep_node services
            (join d.path name)
            x
            (lookup_fresh services name (join d.path name) c x)
  unfolding dir_lookup
  lookup_miss d name c x absent = rw (absent, dir_lookup) refl

  -- The server that keeps no node: the table is emptied before each request.
  abbrev pub serve_uncached : List FuseRequest → FsState W → List (FsAnswer FuseReply)
  serve_uncached [] x = []
  serve_uncached (r ∷ rs) x =
      let (reply, x') = serve services r (with_db [] x) in reply ∷ serve_uncached rs x'

  -- No creations, and lookups of names that the path tells.
  abbrev pub is_lookup_of_base : (String → String) → FuseRequest → Bool
  is_lookup_of_base base (FuseRequest.lookup_in d name c) = base (join d.path name) == name
  is_lookup_of_base base (FuseRequest.create_in d name c flags mode) = false
  is_lookup_of_base base _ = true

  -- What the comment on the node table says: the attributes of a node never change, and all callers have
  -- the same root user.
  module _ (base : String → String)
      (lookup_static : (path : String) (h : FuseHandler W)
        → services.handler_of path ≡ some h
        → (w w' : W) (node : IoNode) (name : String) (c c' : FuseCaller)
        → h.lookup w node (record { name = name; path = path; caller = c; offset = 0 })
          ≡ h.lookup w' node (record { name = name; path = path; caller = c'; offset = 0 }))
      (root_static : (c c' : FuseCaller) → services.root_ids_of c ≡ services.root_ids_of c') where
    -- Each node in the table is what a lookup would find.
    abbrev IsCoherent : FsState W → Type 0
    IsCoherent x =
        (path : String) (node : FuseNode)
        → lookup path x.server.node_db ≡ some node
        → (c : FuseCaller) → lookup_fresh services (base path) path c x ≡ answer node

    abbrev SameBut : {A : Type 0} → (A × FsState W) → (A × FsState W) → Type 0
    SameBut a b = (a.0 ≡ b.0) × (with_db [] a.1 ≡ with_db [] b.1)
