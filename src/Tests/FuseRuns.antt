-- ===== src/Tests/FuseRuns.antt =====
-- A file system with one emulated file: lookups, a creation, two writes of a program.
use sysbox_fs.Prelude.{
  ℕ, ◌≡◌, refl, inl, true, false, Option, none, some, ok, err, List, [], ◌∷◌, length,
}
use sysbox_fs.Prelude.Int.{pos}
use sysbox_fs.Prelude.Maps.{insert}
use sysbox_fs.Text.{join}
use sysbox_fs.State.Data.{DataStore, set_data}
use sysbox_fs.Fuse.Node.{
  FuseNode, FuseCaller, Services, FuseHandler, HandlerError, Server, empty_attr, no_container,
}
use sysbox_fs.Fuse.File.{
  FsState, answer, refusal, panic, file_attr, file_write, open_flags_of, cache_timeout,
}
use sysbox_fs.Fuse.File.Laws.{file_attr-owner, file_attr-panics, HasIds, shown_id}
use sysbox_fs.Fuse.Dir.{dir_create, dir_lookup}
use sysbox_fs.Fuse.Dir.Laws.{dir_create-lookup}
use sysbox_fs.Fuse.Run.{FuseRequest, serve, serve_all}
use sysbox_fs.Fuse.Run.NoContainer.{serve-no_container, asks_handler}

abbrev emulated : FuseHandler DataStore
emulated = record {
  open_node = λ w n r. (ok false, w);
  lookup = λ w n r. ok (
    record { name = n.name; size = 0; mode = 420; mod_time = 0; is_dir = false; sys = none },
    false,
  );
  read = λ w n r buffer. ((0, buffer, none), w);
  write = λ w n r content. elim (set_data w n.path (pos r.offset) content) [
    | ok w' ↦ ((length content, none), w')
    | err e ↦ ((0, some (HandlerError.errno_of 22)), w)
  ];
  read_dir_all = λ w n r. ok [];
  read_link = λ w n r. ("", none);
}

abbrev or_emulated : Option (FuseHandler DataStore) → FuseHandler DataStore
or_emulated none = emulated
or_emulated (some h) = h

abbrev services : Services DataStore
services = record { handler_of = λ path. some emulated; root_ids_of = λ c. some (1000, 1000) }

abbrev server_with : Option (ℕ × ℕ) → Server
server_with container = record {
  node_db = [];
  container = container;
  container_uid = 0;
  container_gid = 0;
  cntr_reg = true;
}

abbrev start : FsState DataStore
start = record { server = server_with (some (1000, 1000)); files = [] }

abbrev destroyed : FsState DataStore
destroyed = record { server = server_with none; files = [] }

abbrev proc_dir : FuseNode
proc_dir = record {
  is_dir = true;
  name = "proc";
  path = "/proc";
  attr = empty_attr;
  skip_id_remap = false;
}

abbrev uptime : FuseNode
uptime = record {
  is_dir = false;
  name = "uptime";
  path = "/proc/uptime";
  attr = empty_attr;
  skip_id_remap = false;
}

abbrev program : FuseCaller
program = record { pid = 7; uid = 0; gid = 0 }

abbrev looked_up_twice : List FuseRequest
looked_up_twice =
    FuseRequest.lookup_in proc_dir "uptime" program
    ∷ FuseRequest.lookup_in proc_dir "uptime" (record program { pid = 8 })
    ∷ FuseRequest.write_to uptime program 0 (49 ∷ [])
    ∷ FuseRequest.forget_of uptime
    ∷ FuseRequest.lookup_in proc_dir "uptime" program
    ∷ []

file_attr-owner_example :
    ((file_attr services uptime start).0
      ≡ answer (record empty_attr {
        uid = shown_id false 0 1000;
        gid = shown_id false 0 1000;
        valid = cache_timeout;
      }))
    × HasIds (file_attr services uptime start).1.server 1000 1000
file_attr-owner_example =
    file_attr-owner services uptime start 1000 1000
      (record { known = refl; uid_kept = inl refl; gid_kept = inl refl })

attr_of_destroyed : (file_attr services uptime destroyed).0 ≡ panic
attr_of_destroyed = file_attr-panics services uptime destroyed refl refl refl refl

serve-no_container_example :
    ((serve services (FuseRequest.write_to uptime program 0 (49 ∷ [])) destroyed).1.files ≡ [])
    × (asks_handler (FuseRequest.write_to uptime program 0 (49 ∷ [])) ≡ true
        → (serve services (FuseRequest.write_to uptime program 0 (49 ∷ [])) destroyed).0
          ≡ refusal no_container)
serve-no_container_example =
    serve-no_container services (FuseRequest.write_to uptime program 0 (49 ∷ [])) destroyed refl

abbrev after_creation : FsState DataStore
after_creation = (dir_create services proc_dir "uptime" program 1 420 0 start).1

abbrev created_node : FuseNode
created_node = record uptime {
  attr = record empty_attr { mode = 420; nlink = 1; block_size = 1024 };
}

dir_create-lookup_example :
    dir_lookup services proc_dir "uptime" program after_creation
    ≡ (answer created_node, after_creation)
unfolding dir_create join open_flags_of
dir_create-lookup_example =
    dir_create-lookup services proc_dir "uptime" program 1 420 0 start after_creation created_node 1
      refl program

-- "1" and then "0" at offset 1: the file holds "0", and not "10".
written_twice :
    (serve_all services
      (FuseRequest.write_to uptime program 0 (49 ∷ [])
        ∷ FuseRequest.write_to uptime program 1 (48 ∷ [])
        ∷ [])
      start).1.files
    ≡ ("/proc/uptime", 48 ∷ []) ∷ []
unfolding serve_all file_write set_data insert
written_twice = refl
