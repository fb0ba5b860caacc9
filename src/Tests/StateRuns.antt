-- ===== src/Tests/StateRuns.antt =====
-- The registry and the data store at work.
use sysbox_fs.Prelude.{
  ℕ, String, ◌≡◌, ◌≢◌, refl, Bool, true, false, none, some, List, [], ◌∷◌, ok, ◌==◌, nat_eq,
  string_eq, arith, if◌then◌else◌,
}
use sysbox_fs.Prelude.Maps.{lookup, insert}
use sysbox_fs.Prelude.Int.{pos}
use sysbox_fs.State.Data.{DataStore, eof, done, get_data, write_chunks}
use sysbox_fs.State.Data.Laws.{write_chunks-get_data}
use sysbox_fs.State.Container.{Kernel, ContainerData, Container, new_container, update}
use sysbox_fs.State.Registry.{container_register}
use sysbox_fs.Prelude.{get_elem?}
use sysbox_fs.State.Registry.Lifecycle.{pre_register-unregister, container_register-completed}
use sysbox_fs.State.Registry.{
  Host, Css, Message, pre_register, success, handle_all, empty_registry, container_pre_register,
  container_unregister, handle, track_netns, netns_inode_of, join_netns, enter, create_fuse_server,
  state_container,
}
use sysbox_fs.State.Registry.Ids.{IsConsistent}
use sysbox_fs.State.Registry.Laws.{
  handle_all-IsConsistent, container_unregister-id_table, container_unregister-server,
  container_pre_register-shared,
}

abbrev kernel : Kernel
kernel = record {
  root_inode_of = λ pid. 2;
  pidfd_open = λ pid. (3, true);
  netns_of_path = λ path. some 77;
  netns_of_pid = λ pid. some 77;
}

-- A system where all goes well, or where servers neither start nor unmount.
abbrev host : Bool → Host
host fine = record {
  kernel = kernel;
  server_starts = λ id. fine;
  server_unmounts = λ id. fine;
  mountpoint_removed = λ id. fine;
}

abbrev data_of : String → String → ContainerData
data_of id netns = record {
  id = id;
  netns = netns;
  init_pid = 40;
  ctime = 1;
  uid_first = 165536;
  uid_size = 65536;
  gid_first = 165536;
  gid_size = 65536;
  proc_ro_paths = [];
  proc_mask_paths = [];
}

abbrev one_container : List (Host × Message)
one_container = (host true, pre_register (data_of "a" "/run/netns/x")) ∷ []

abbrev with_a : Css
with_a = handle_all empty_registry one_container

handle_all-IsConsistent_example : IsConsistent with_a
handle_all-IsConsistent_example = handle_all-IsConsistent one_container

container_unregister-id_table_example :
    ((container_unregister (host true) with_a "a").0 ≡ success)
    × ((j : String)
        → lookup j (container_unregister (host true) with_a "a").1.id_table
          ≡ (if "a" == j then none else lookup j with_a.id_table))
unfolding lookup insert handle container_pre_register track_netns netns_inode_of join_netns enter
    create_fuse_server state_container
container_unregister-id_table_example =
    container_unregister-id_table (host true) with_a "a" 0 (handle_all-IsConsistent one_container)
      refl

container_unregister-server_run :
    ((container_unregister (host false) with_a "a").0 ≡ success)
    × ((container_pre_register
          (host true)
          (container_unregister (host false) with_a "a").1
          "a"
          "").0
        ≢ success)
unfolding lookup insert handle container_pre_register track_netns netns_inode_of join_netns enter
    create_fuse_server state_container
container_unregister-server_run =
    container_unregister-server (host false) (host true) with_a "a" "" 0
      (record { state_cntr = 0; cntr_reg = false }) (handle_all-IsConsistent one_container) refl
      refl refl

container_pre_register-shared_run :
    ((container_pre_register (host true) with_a "b" "/run/netns/x").0 ≡ success)
    × (lookup "b" (container_pre_register (host true) with_a "b" "/run/netns/x").1.servers
        ≡ some (record { state_cntr = 0; cntr_reg = false }))
unfolding lookup insert handle container_pre_register track_netns netns_inode_of join_netns enter
    create_fuse_server state_container
container_pre_register-shared_run =
    container_pre_register-shared (host true) with_a "b" "/run/netns/x" 77 0 [] refl refl refl refl
      refl refl

abbrev five : List ℕ
five = 1 ∷ 2 ∷ 3 ∷ 4 ∷ 5 ∷ []

abbrev room : List ℕ
room = 0 ∷ 0 ∷ 0 ∷ 0 ∷ 0 ∷ 0 ∷ 0 ∷ []

-- An entry of five bytes.
abbrev store : DataStore
store = ("/proc/sys/net/x", five) ∷ []

abbrev truncated : DataStore
truncated = ("/proc/sys/net/x", 1 ∷ 9 ∷ []) ∷ []

write_chunks-get_data_example :
    (store' : DataStore) × (write_chunks store "new" 0 ((1 ∷ 2 ∷ []) ∷ (3 ∷ []) ∷ []) ≡ ok store')
    × (get_data store' "new" (pos 0) (0 ∷ 0 ∷ 0 ∷ 0 ∷ []) ≡ done 3 (1 ∷ 2 ∷ 3 ∷ []) (some eof))
unfolding lookup
write_chunks-get_data_example =
    write_chunks-get_data store "new" (1 ∷ 2 ∷ []) ((3 ∷ []) ∷ []) (0 ∷ 0 ∷ 0 ∷ 0 ∷ []) refl
      (omega arith) (omega arith)

pre_register-unregister_example :
    ((container_unregister (host true) (container_pre_register (host true) with_a "b" "").1 "b").0
      ≡ success)
    × ((j : String)
        → lookup j
            (container_unregister
              (host true)
              (container_pre_register (host true) with_a "b" "").1
              "b").1.id_table
          ≡ lookup j with_a.id_table)
unfolding lookup insert handle container_pre_register track_netns netns_inode_of join_netns enter
    create_fuse_server state_container
pre_register-unregister_example =
    pre_register-unregister (host true) (host true) with_a "b" ""
      (handle_all-IsConsistent one_container) refl

container_register-completed_run :
    (r : ℕ) × (c : Container) × (lookup "a" with_a.id_table ≡ some r)
    × (get_elem? (container_register (host true) with_a (new_container (data_of "a" ""))).1.heap r
        ≡ some c)
    × (c.reg_completed ≡ true)
    × (c.init_pid ≡ 40)
    × (c.ctime ≡ 1)
    × (c.uid_first ≡ 165536)
    × (c.gid_first ≡ 165536)
    × (c.proc_ro_paths ≡ [])
    × (c.proc_mask_paths ≡ [])
unfolding lookup insert handle container_pre_register track_netns netns_inode_of join_netns enter
    create_fuse_server state_container container_register new_container update
container_register-completed_run =
    container_register-completed (host true) with_a (new_container (data_of "a" "")) refl
