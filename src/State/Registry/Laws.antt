-- ===== src/State/Registry/Laws.antt =====
-- What the messages do to the id table, to the fuse servers and to the shared namespaces.
use sysbox_fs.Prelude.{
  ℕ, String, ◌≡◌, ◌≢◌, refl, true, false, none, some, List, [], ◌∷◌, ◌++◌, ◌==◌, nat_eq, string_eq,
  arith, length, get_elem?, if◌then◌else◌, inl, inr, Bool-cases, Option-cases,
}
use sysbox_fs.Prelude.Maps.{Map, lookup, insert, delete, lookup-insert, lookup-delete}
use sysbox_fs.State.Container.{Container, Kernel, blank}
use sysbox_fs.State.Registry.{
  Css, FuseServer, Host, success, already_exists, internal, Message, handle, write,
  create_fuse_server, destroy_fuse_server, Tracked, tracked, track_error, track_panic, join_netns,
  track_netns, add_sharer, untrack_netns, enter, enter_tracked, container_pre_register, close_fd,
  unregister_at, container_unregister, handle_all, empty_registry, state_container, netns_inode_of,
}
use sysbox_fs.State.Registry.Ids.{
  untrack_netns-same, destroy-same, track-tables, IsConsistent, enter-tables,
}
use sysbox_fs.State.Registry.Consistent.{handle-IsConsistent, close_fd-same, get_elem?-allocated}

IsConsistent-run :
    (css : Css) (ms : List (Host × Message)) → IsConsistent css → IsConsistent (handle_all css ms)
IsConsistent-run css [] good = good
IsConsistent-run css ((host, m) ∷ ms) good =
    IsConsistent-run (handle host css m).1 ms (handle-IsConsistent host css m good)

-- After any sequence of messages of sysbox-runc to an empty registry, whatever the system answers,
-- each id of the id table refers to a container of that id.
pub handle_all-IsConsistent :
    (ms : List (Host × Message)) → IsConsistent (handle_all empty_registry ms)
unfolding lookup
handle_all-IsConsistent ms = IsConsistent-run empty_registry ms (λ id r h. absurd (ground arith))

refuse-known :
    (host : Host) (css : Css) (id netns : String) (r : ℕ)
    → lookup id css.id_table ≡ some r
    → container_pre_register host css id netns ≡ (already_exists, css)
unfolding container_pre_register
refuse-known host css id netns r known = ground arith

pub enter-known :
    (host : Host) (css : Css) (id : String) (r : ℕ) (sharers : List ℕ)
    → lookup id (enter host css id r sharers).1.id_table ≡ some r
enter-known host css id r sharers = ground (
  arith,
  (enter-tables host css id r sharers).1,
  lookup-insert id id r css.id_table,
  string_eq.equal_iff id id,
)

enter_tracked-known :
    (host : Host) (css : Css) (id : String) (r : ℕ) (t : Tracked)
    → (enter_tracked host css id r t).0 ≡ internal
    → lookup id (enter_tracked host css id r t).1.id_table ≡ some r
unfolding enter_tracked
enter_tracked-known host css id r track_error h = absurd (ground arith)
enter_tracked-known host css id r track_panic h = absurd (ground arith)
enter_tracked-known host css id r (tracked sharers css') h = enter-known host css' id r sharers

internal-known :
    (host : Host) (css : Css) (id netns : String)
    → (container_pre_register host css id netns).0 ≡ internal
    → lookup id (container_pre_register host css id netns).1.id_table ≡ some (length css.heap)
unfolding container_pre_register
internal-known host css id netns h = elim (Option-cases (lookup id css.id_table)) [
  | inr (r, known) ↦ absurd (ground arith)
  | inl fresh ↦
      let r = length css.heap in
      let css' : Css = record css { heap = css.heap ++ blank id ∷ [] } in
      elim (Bool-cases (netns == "")) [
        | inl alone ↦ ground (arith, enter-known host css' id r [])
        | inr shared ↦ ground (
          arith,
          enter_tracked-known host css' id r (track_netns host.kernel css' r (blank id) netns),
        )
      ]
]

-- A pre-registration that ends with an internal error leaves its id in the table: the same id is
-- refused afterwards, whatever the system then answers and whichever namespace is asked for.
pub container_pre_register-reserved :
    (host host' : Host) (css : Css) (id netns netns' : String)
    → (container_pre_register host css id netns).0 ≡ internal
    → container_pre_register host' (container_pre_register host css id netns).1 id netns'
      ≡ (already_exists, (container_pre_register host css id netns).1)
container_pre_register-reserved host host' css id netns netns' h =
    refuse-known host' (container_pre_register host css id netns).1 id netns' (length css.heap)
      (internal-known host css id netns h)

unregister_at-tables :
    (host : Host) (css : Css) (c : Container)
    → ((unregister_at host css (some c)).0 ≡ success)
      × ((unregister_at host css (some c)).1.id_table ≡ delete c.id css.id_table)
unfolding unregister_at
unregister_at-tables host css c =
    let closed = close_fd css c.init_pid_fd in
    ground (
      arith,
      (close_fd-same css c.init_pid_fd).1,
      (untrack_netns-same closed c).1,
      (destroy-same host (untrack_netns closed c) c.id).1,
    )

-- In a consistent registry, unregistering a known container succeeds and removes its id and no other
-- from the id table.
pub container_unregister-id_table :
    (host : Host) (css : Css) (id : String) (r : ℕ)
    → IsConsistent css
    → lookup id css.id_table ≡ some r
    → ((container_unregister host css id).0 ≡ success)
      × ((j : String)
          → lookup j (container_unregister host css id).1.id_table
            ≡ (if id == j then none else lookup j css.id_table))
unfolding container_unregister
container_unregister-id_table host css id r good known =
    elim (Option-cases (get_elem? css.heap r)) [
      | inl dangling ↦ absurd (ground (arith, good id r known))
      | inr (c, here) ↦
          let tables = unregister_at-tables host css c in
          let named = good id r known in
          (ground (arith, tables.0), λ j. ground (arith, tables.1, lookup-delete id j css.id_table))
    ]

enter-served :
    (host : Host) (css : Css) (id : String) (r : ℕ) (sharers : List ℕ) (srv : FuseServer)
    → lookup id css.servers ≡ some srv
    → (enter host css id r sharers).0 ≡ internal
unfolding enter create_fuse_server
enter-served host css id r sharers srv up = ground arith

enter_tracked-served :
    (host : Host) (css : Css) (id netns : String) (r : ℕ) (srv : FuseServer) (t : Tracked)
    → get_elem? css.heap r ≡ some (blank id)
    → lookup id css.servers ≡ some srv
    → track_netns host.kernel css r (blank id) netns ≡ t
    → (enter_tracked host css id r t).0 ≢ success
unfolding enter_tracked
enter_tracked-served host css id netns r srv track_error here up e = λ h. ground arith
enter_tracked-served host css id netns r srv track_panic here up e = λ h. ground arith
enter_tracked-served host css id netns r srv (tracked sharers css') here up e = λ h. ground (
  arith,
  enter-served host css' id r sharers srv,
  (track-tables host.kernel css css' r (blank id) netns sharers here e).1.1,
)

-- No success for an id whose fuse server is still there.
refuse-served :
    (host : Host) (css : Css) (id netns : String) (srv : FuseServer)
    → lookup id css.servers ≡ some srv
    → (container_pre_register host css id netns).0 ≢ success
unfolding container_pre_register
refuse-served host css id netns srv up h =
    let r = length css.heap in
    let css' : Css = record css { heap = css.heap ++ blank id ∷ [] } in
    ground (
      arith,
      enter-served host css' id r [] srv,
      enter_tracked-served host css' id netns r srv
          (track_netns host.kernel css' r (blank id) netns)
          (get_elem?-allocated css.heap (blank id)) up refl,
    )

unregister_at-served :
    (host : Host) (css : Css) (c : Container) (srv : FuseServer)
    → lookup c.id css.servers ≡ some srv
    → host.server_unmounts c.id ≡ false
    → lookup c.id (unregister_at host css (some c)).1.servers ≡ some srv
unfolding unregister_at destroy_fuse_server
unregister_at-served host css c srv up stuck =
    let closed = close_fd css c.init_pid_fd in
    ground (arith, (close_fd-same css c.init_pid_fd).2, (untrack_netns-same closed c).2)

-- A fuse server that fails to unmount stays in its table, so that its id cannot be pre-registered
-- again, although it was unregistered with success.
pub container_unregister-server :
    (host host' : Host) (css : Css) (id netns : String) (r : ℕ) (srv : FuseServer)
    → IsConsistent css
    → lookup id css.id_table ≡ some r
    → lookup id css.servers ≡ some srv
    → host.server_unmounts id ≡ false
    → ((container_unregister host css id).0 ≡ success)
      × ((container_pre_register host' (container_unregister host css id).1 id netns).0 ≢ success)
unfolding container_unregister
container_unregister-server host host' css id netns r srv good known up stuck =
    elim (Option-cases (get_elem? css.heap r)) [
      | inl dangling ↦ absurd (ground (arith, good id r known))
      | inr (c, here) ↦
          let tables = unregister_at-tables host css c in
          let named = good id r known in
          (
            ground (arith, tables.0),
            refuse-served host' (container_unregister host css id).1 id netns srv
                (ground (arith, unregister_at-served host css c srv)),
          )
    ]

state_container-first :
    (r first : ℕ) (rest : List ℕ) → state_container r (first ∷ rest ++ r ∷ []) ≡ first
unfolding state_container
state_container-first r first [] = refl
state_container-first r first (x ∷ xs) = refl

lookup-insert_self :
    (id : String) (srv : FuseServer) (m : Map String FuseServer)
    → lookup id (insert id srv m) ≡ some srv
lookup-insert_self id srv m = ground (arith, lookup-insert id id srv m, string_eq.equal_iff id id)

enter-serves :
    (host : Host) (css : Css) (id : String) (r : ℕ) (sharers : List ℕ)
    → lookup id css.servers ≡ none
    → host.server_starts id ≡ true
    → ((enter host css id r sharers).0 ≡ success)
      × (lookup id (enter host css id r sharers).1.servers
          ≡ some (record { state_cntr = state_container r sharers; cntr_reg = false }))
unfolding enter create_fuse_server
enter-serves host css id r sharers down starts =
    let srv : FuseServer = record { state_cntr = state_container r sharers; cntr_reg = false } in
    ground (arith, lookup-insert_self id srv css.servers)

join_netns-sharers :
    (k : Kernel) (css : Css) (r inode first : ℕ) (rest : List ℕ) (c : Container) (netns : String)
    → c.netns_inode ≡ 0
    → (netns == "") ≡ false
    → k.netns_of_path netns ≡ some inode
    → lookup inode css.netns_table ≡ some (first ∷ rest)
    → (css' : Css) × (track_netns k css r c netns ≡ tracked (first ∷ rest ++ r ∷ []) css')
      × (css'.servers ≡ css.servers)
unfolding track_netns netns_inode_of join_netns add_sharer
join_netns-sharers k css r inode first rest c netns new named at sharers =
    let all = first ∷ rest ++ r ∷ [] in
    (
      record (write css r (record c { netns_inode = inode })) {
        netns_table = insert inode all css.netns_table;
      },
      ground arith,
      refl,
    )

-- A container that joins a network namespace, given by a path that the kernel knows, is served by a
-- fuse server with the state of the namespace's first container, if the namespace has one.
pub container_pre_register-shared :
    (host : Host) (css : Css) (id netns : String) (inode first : ℕ) (rest : List ℕ)
    → lookup id css.id_table ≡ none
    → lookup id css.servers ≡ none
    → host.server_starts id ≡ true
    → (netns == "") ≡ false
    → host.kernel.netns_of_path netns ≡ some inode
    → lookup inode css.netns_table ≡ some (first ∷ rest)
    → ((container_pre_register host css id netns).0 ≡ success)
      × (lookup id (container_pre_register host css id netns).1.servers
          ≡ some (record { state_cntr = first; cntr_reg = false }))
unfolding container_pre_register enter_tracked
container_pre_register-shared host css id netns inode first rest new down starts named at sharers =
    let r = length css.heap in
    let css' : Css = record css { heap = css.heap ++ blank id ∷ [] } in
    let joined =
      join_netns-sharers host.kernel css' r inode first rest (blank id) netns refl named at
        sharers in
    let served =
      enter-serves host joined.0 id r (first ∷ rest ++ r ∷ []) (ground (arith, joined.2)) starts in
    ground (arith, joined.1, served.0, served.1, state_container-first r first rest)
