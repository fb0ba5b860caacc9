-- ===== src/State/Registry.antt =====
-- The registry of containers (state/containerDB.go), the fuse-server service that it drives
-- (fuse/service.go) and the messages of sysbox-runc (ipc/apis.go). Containers are objects of a heap;
-- the tables hold references. Each message runs under the service's lock, so it is one step.
pub mod Ids
pub mod Consistent
pub mod Laws
pub mod Lifecycle
use sysbox_fs.Prelude.{
  ℕ, zero, suc, ◌+◌, String, Bool, true, false, not, Option, none, some, List, [], ◌∷◌, ◌++◌, ◌==◌,
  nat_eq, string_eq, length, get_elem?, keep, ltb, if◌then◌else◌,
}
use sysbox_fs.Prelude.Maps.{Map, lookup, insert, delete}
use sysbox_fs.State.Container.{
  ProcessRef, Container, ContainerData, Kernel, blank, new_container, update,
}

-- A fuse server: the container whose state it serves, and whether the registration completed.
pub record FuseServer : Type 0 where
  pub state_cntr : ℕ
  pub cntr_reg : Bool

pub record Css : Type 0 where
  pub heap : List Container
  pub id_table : Map String ℕ
  pub netns_table : Map ℕ (List ℕ)
  pub servers : Map String FuseServer
  pub closed_fds : List ℕ

-- What the operating system answers: beside the kernel's files, whether the mountpoint and the server
-- of a container come up, whether a server unmounts, and whether its mountpoint can be removed.
pub record Host : Type 0 where
  pub kernel : Kernel
  pub server_starts : String → Bool
  pub server_unmounts : String → Bool
  pub mountpoint_removed : String → Bool

-- The gRPC status of a message; `panics` is a nil dereference.
pub data Status : Type 0 where
  success already_exists not_found internal panics : Status

abbrev pub set_container : List Container → ℕ → Container → List Container
set_container [] r c = []
set_container (x ∷ xs) zero c = c ∷ xs
set_container (x ∷ xs) (suc r) c = x ∷ set_container xs r c

abbrev pub write : Css → ℕ → Container → Css
write css r c = record css { heap = set_container css.heap r c }

-- CreateFuseServer; `none` is an error.
unfoldable pub create_fuse_server : Host → Css → String → ℕ → Option Css
create_fuse_server host css id state_ref = elim (lookup id css.servers) [
  | some srv ↦ none
  | none ↦
      if host.server_starts id
      then some (record css {
        servers = insert id (record { state_cntr = state_ref; cntr_reg = false }) css.servers;
      })
      else none
]

-- DestroyFuseServer, which reports no error whatever happens.
unfoldable pub destroy_fuse_server : Host → Css → String → Css
destroy_fuse_server host css id = elim (lookup id css.servers) [
  | none ↦ css
  | some srv ↦
      if not (host.server_unmounts id)
      then css
      else if not (host.mountpoint_removed id)
      then css
      else record css { servers = delete id css.servers }
]

-- FuseServerCntrRegComplete, which reports no error either.
unfoldable pub fuse_server_cntr_reg_complete : Css → String → Css
fuse_server_cntr_reg_complete css id = elim (lookup id css.servers) [
  | none ↦ css
  | some srv ↦ record css { servers = insert id (record srv { cntr_reg = true }) css.servers }
]

-- The inode of the network namespace: of the path, or of the init process. The outer `none` is a nil
-- dereference, the inner one an error.
unfoldable pub netns_inode_of : Kernel → Container → String → Option (Option ℕ)
netns_inode_of k c netns =
    if not (netns == "")
    then some (k.netns_of_path netns)
    else elim c.init_proc [ none ↦ none | some p ↦ some (k.netns_of_pid p.pid) ]

add_sharer : Option (List ℕ) → ℕ → List ℕ
add_sharer none r = r ∷ []
add_sharer (some rs) r = rs ++ r ∷ []

pub data Tracked : Type 0 where
  tracked : List ℕ → Css → Tracked
  track_error track_panic : Tracked

-- The end of trackNetns: the containers of the namespace, this one last.
unfoldable pub join_netns : Css → ℕ → Container → ℕ → Tracked
unfolding add_sharer
join_netns css r c inode =
    let sharers = add_sharer (lookup inode css.netns_table) r in
    tracked sharers (record (write css r (record c { netns_inode = inode })) {
      netns_table = insert inode sharers css.netns_table;
    })

unfoldable pub track_netns : Kernel → Css → ℕ → Container → String → Tracked
track_netns k css r c netns =
    if not (c.netns_inode == 0) then tracked [] css else elim (netns_inode_of k c netns) [
      | none ↦ track_panic
      | some none ↦ track_error
      | some (some inode) ↦ join_netns css r c inode
    ]

other_id : Css → String → ℕ → Bool
other_id css id r = elim (get_elem? css.heap r) [ none ↦ true | some c ↦ not (c.id == id) ]

-- The sharers without the container; the entry goes with its last one.
left_netns : Css → ℕ → List ℕ → Css
left_netns css inode [] = record css { netns_table = delete inode css.netns_table }
left_netns css inode (r ∷ rs) = record css { netns_table = insert inode (r ∷ rs) css.netns_table }

-- untrackNetns; its error is ignored by the caller.
unfoldable pub untrack_netns : Css → Container → Css
unfolding other_id left_netns
untrack_netns css c = elim (lookup c.netns_inode css.netns_table) [
  | none ↦ css
  | some rs ↦ left_netns css c.netns_inode (keep (other_id css c.id) rs)
]

-- The container whose state the new server serves: the first of the namespace.
unfoldable pub state_container : ℕ → List ℕ → ℕ
state_container r [] = r
state_container r (first ∷ []) = r
state_container r (first ∷ second ∷ rest) = first

-- The end of ContainerPreRegister: the table gets its entry before the server is there.
unfoldable pub enter : Host → Css → String → ℕ → List ℕ → Status × Css
enter host css id r sharers =
    let css' = record css { id_table = insert id r css.id_table } in
    elim (create_fuse_server host css' id (state_container r sharers)) [
      | none ↦ (internal, css')
      | some css'' ↦ (success, css'')
    ]

enter_tracked : Host → Css → String → ℕ → Tracked → Status × Css
enter_tracked host css id r track_error = (not_found, css)
enter_tracked host css id r track_panic = (panics, css)
enter_tracked host css id r (tracked sharers css') = enter host css' id r sharers

unfoldable pub container_pre_register : Host → Css → String → String → Status × Css
unfolding enter_tracked
container_pre_register host css id netns = elim (lookup id css.id_table) [
  | some r ↦ (already_exists, css)
  | none ↦
      let r = length css.heap in
      let css' = record css { heap = css.heap ++ blank id ∷ [] } in
      if netns == ""
      then enter host css' id r []
      else enter_tracked host css' id r (track_netns host.kernel css' r (blank id) netns)
]

-- SetRegistrationCompleted.
complete : Css → ℕ → Option Container → Css
complete css r none = css
complete css r (some c) = write css r (record c { reg_completed = true })

registered : Css → String → ℕ → Tracked → Status × Css
unfolding complete
registered css id r track_error = (not_found, css)
registered css id r track_panic = (panics, css)
registered css id r (tracked sharers css') =
    let css'' = fuse_server_cntr_reg_complete css' id in
    (success, complete css'' r (get_elem? css''.heap r))

register_at : Host → Css → ℕ → Option Container → Container → Status × Css
unfolding registered
register_at host css r none src = (panics, css)
register_at host css r (some curr) src =
    let (c, updated) = update host.kernel curr src in
    let css' = write css r c in
    if updated
    then registered css' src.id r (track_netns host.kernel css' r c "")
    else (internal, css')

unfoldable pub container_register : Host → Css → Container → Status × Css
unfolding register_at
container_register host css src = elim (lookup src.id css.id_table) [
  | none ↦ (not_found, css)
  | some r ↦ register_at host css r (get_elem? css.heap r) src
]

set_ctime : Css → ℕ → ℕ → Option Container → Css
set_ctime css r t none = css
set_ctime css r t (some c) = write css r (record c { ctime = t })

unfoldable pub container_update : Css → Container → Status × Css
unfolding set_ctime
container_update css src = elim (lookup src.id css.id_table) [
  | none ↦ (not_found, css)
  | some r ↦ (success, set_ctime css r src.ctime (get_elem? css.heap r))
]

-- The container's pidfd is closed, if it has one.
pub close_fd : Css → ℕ → Css
close_fd css fd = if fd == 0 then css else record css { closed_fds = fd ∷ css.closed_fds }

unregister_at : Host → Css → Option Container → Status × Css
unfolding close_fd
unregister_at host css none = (panics, css)
unregister_at host css (some c) =
    let css' = destroy_fuse_server host (untrack_netns (close_fd css c.init_pid_fd) c) c.id in
    (success, record css' { id_table = delete c.id css'.id_table })

-- ContainerUnregister, of the container that the message's id names.
unfoldable pub container_unregister : Host → Css → String → Status × Css
unfolding unregister_at
container_unregister host css id = elim (lookup id css.id_table) [
  | none ↦ (not_found, css)
  | some r ↦ unregister_at host css (get_elem? css.heap r)
]

pub data Message : Type 0 where
  pre_register register unregister update_ctime : ContainerData → Message

-- The callbacks of ipc/apis.go.
unfoldable pub handle : Host → Css → Message → Status × Css
handle host css (pre_register d) = container_pre_register host css d.id d.netns
handle host css (register d) = container_register host css (new_container d)
handle host css (unregister d) = container_unregister host css d.id
handle host css (update_ctime d) = container_update css (new_container d)

-- Messages in turn, each with what the system answers at that time.
abbrev pub handle_all : Css → List (Host × Message) → Css
handle_all css [] = css
handle_all css ((host, m) ∷ ms) = handle_all (handle host css m).1 ms

abbrev pub empty_registry : Css
empty_registry = record {
  heap = [];
  id_table = [];
  netns_table = [];
  servers = [];
  closed_fds = [];
}
