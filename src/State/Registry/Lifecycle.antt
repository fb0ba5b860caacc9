-- ===== src/State/Registry/Lifecycle.antt =====
-- A container's life: what a registration leaves behind, and that unregistering takes it back.
use sysbox_fs.Prelude.{
  ℕ, String, ◌≡◌, refl, true, none, some, List, [], ◌∷◌, ◌++◌, ◌==◌, nat_eq, string_eq, arith,
  length, get_elem?, inl, inr, Bool-cases, Option-cases,
}
use sysbox_fs.Prelude.Maps.{lookup, insert, lookup-insert}
use sysbox_fs.State.Container.{Container, Kernel, blank, update}
use sysbox_fs.State.Registry.{
  netns_inode_of, Css, Host, success, write, fuse_server_cntr_reg_complete, Tracked, tracked,
  track_error, track_panic, join_netns, track_netns, enter_tracked, container_pre_register,
  complete, registered, register_at, container_register, container_unregister,
}
use sysbox_fs.State.Registry.Ids.{enter-tables, IsConsistent, track-tables}
use sysbox_fs.State.Registry.Consistent.{
  container_pre_register-IsConsistent, get_elem?-allocated, get_elem?-set_self,
  complete_server-same,
}
use sysbox_fs.State.Registry.Laws.{container_unregister-id_table}

enter_tracked-id_table :
    (host : Host) (css : Css) (id netns : String) (r : ℕ) (t : Tracked)
    → get_elem? css.heap r ≡ some (blank id)
    → track_netns host.kernel css r (blank id) netns ≡ t
    → (enter_tracked host css id r t).0 ≡ success
    → (enter_tracked host css id r t).1.id_table ≡ insert id r css.id_table
unfolding enter_tracked
enter_tracked-id_table host css id netns r track_error here e h = absurd (ground arith)
enter_tracked-id_table host css id netns r track_panic here e h = absurd (ground arith)
enter_tracked-id_table host css id netns r (tracked sharers css') here e h = ground (
  arith,
  (enter-tables host css' id r sharers).1,
  (track-tables host.kernel css css' r (blank id) netns sharers here e).1.0,
)

-- A pre-registration with success is of an id that was not known, and adds it with a new container.
pub container_pre_register-id_table :
    (host : Host) (css : Css) (id netns : String)
    → (container_pre_register host css id netns).0 ≡ success
    → (lookup id css.id_table ≡ none)
      × ((container_pre_register host css id netns).1.id_table
          ≡ insert id (length css.heap) css.id_table)
unfolding container_pre_register
container_pre_register-id_table host css id netns h = elim (Option-cases (lookup id css.id_table)) [
  | inr (r, known) ↦ absurd (ground arith)
  | inl fresh ↦
      let r = length css.heap in
      let css' : Css = record css { heap = css.heap ++ blank id ∷ [] } in
      let t = track_netns host.kernel css' r (blank id) netns in
      (
        fresh,
        ground (
          arith,
          (enter-tables host css' id r []).1,
          enter_tracked-id_table host css' id netns r t (get_elem?-allocated css.heap (blank id))
              refl,
        ),
      )
]

-- In a consistent registry, unregistering a container that was just pre-registered with success
-- succeeds and gives every id the entry in the id table that it had before.
pub pre_register-unregister :
    (host host' : Host) (css : Css) (id netns : String)
    → IsConsistent css
    → (container_pre_register host css id netns).0 ≡ success
    → ((container_unregister host' (container_pre_register host css id netns).1 id).0 ≡ success)
      × ((j : String)
          → lookup j
              (container_unregister host'
                (container_pre_register host css id netns).1
                id).1.id_table
            ≡ lookup j css.id_table)
pre_register-unregister host host' css id netns good h =
    let mid = (container_pre_register host css id netns).1 in
    let added = container_pre_register-id_table host css id netns h in
    let gone =
      container_unregister-id_table host' mid id (length css.heap)
        (container_pre_register-IsConsistent host css id netns good)
        (ground (
          arith,
          added.1,
          lookup-insert id id (length css.heap) css.id_table,
          string_eq.equal_iff id id,
        )) in
    (
      gone.0,
      λ j. ground (
        arith,
        gone.1 j,
        added.0,
        added.1,
        lookup-insert id j (length css.heap) css.id_table,
        string_eq.equal_iff id j,
      ),
    )

join_netns-container :
    (css css' : Css) (r inode : ℕ) (c : Container) (sharers : List ℕ)
    → get_elem? css.heap r ≡ some c
    → join_netns css r c inode ≡ tracked sharers css'
    → get_elem? css'.heap r ≡ some (record c { netns_inode = inode })
unfolding join_netns
join_netns-container css css' r inode c sharers here h =
    ground (arith, get_elem?-set_self css.heap r (record c { netns_inode = inode }) c here)

-- Tracking changes nothing of the container but its namespace.
track_netns-container :
    (k : Kernel) (css css' : Css) (r : ℕ) (c : Container) (netns : String) (sharers : List ℕ)
    → get_elem? css.heap r ≡ some c
    → track_netns k css r c netns ≡ tracked sharers css'
    → (n : ℕ) × (get_elem? css'.heap r ≡ some (record c { netns_inode = n }))
unfolding track_netns
track_netns-container k css css' r c netns sharers here h = elim (Bool-cases (c.netns_inode == 0)) [
  | inr known ↦ (c.netns_inode, ground arith)
  | inl fresh ↦ elim (Option-cases (netns_inode_of k c netns)) [
    | inl nil_init ↦ absurd (ground arith)
    | inr (none, lost) ↦ absurd (ground arith)
    | inr (some inode, found) ↦
        (inode, join_netns-container css css' r inode c sharers here (ground arith))
  ]
]

registered-completed :
    (k : Kernel) (css : Css) (id : String) (r : ℕ) (c : Container) (t : Tracked)
    → get_elem? css.heap r ≡ some c
    → track_netns k css r c "" ≡ t
    → (registered css id r t).0 ≡ success
    → (n : ℕ) × (get_elem? (registered css id r t).1.heap r
        ≡ some (record c { netns_inode = n; reg_completed = true }))
unfolding registered complete
registered-completed k css id r c track_error here e h = absurd (ground arith)
registered-completed k css id r c track_panic here e h = absurd (ground arith)
registered-completed k css id r c (tracked sharers css') here e h =
    let (n, there) = track_netns-container k css css' r c "" sharers here e in
    let served = fuse_server_cntr_reg_complete css' id in
    let c' : Container = record c { netns_inode = n } in
    (
      n,
      ground (
        arith,
        (complete_server-same css' id).0,
        get_elem?-set_self served.heap r (record c' { reg_completed = true }) c',
      ),
    )

-- A registration with success is of a known id, and leaves its container complete, with the init
-- process and the attributes of the message.
pub container_register-completed :
    (host : Host) (css : Css) (src : Container)
    → (container_register host css src).0 ≡ success
    → (r : ℕ) × (c : Container) × (lookup src.id css.id_table ≡ some r)
      × (get_elem? (container_register host css src).1.heap r ≡ some c)
      × (c.reg_completed ≡ true)
      × (c.init_pid ≡ src.init_pid)
      × (c.ctime ≡ src.ctime)
      × (c.uid_first ≡ src.uid_first)
      × (c.gid_first ≡ src.gid_first)
      × (c.proc_ro_paths ≡ src.proc_ro_paths)
      × (c.proc_mask_paths ≡ src.proc_mask_paths)
unfolding container_register register_at update
container_register-completed host css src h = elim (Option-cases (lookup src.id css.id_table)) [
  | inl unknown ↦ absurd (ground arith)
  | inr (r, known) ↦ elim (Option-cases (get_elem? css.heap r)) [
    | inl dangling ↦ absurd (ground arith)
    | inr (curr, here) ↦
        let c = (update host.kernel curr src).0 in
        let css' = write css r c in
        let t = track_netns host.kernel css' r c "" in
        elim (Bool-cases (update host.kernel curr src).1) [
          | inr bad ↦ absurd (ground arith)
          | inl fine ↦
              let done =
                registered-completed host.kernel css' src.id r c t
                  (get_elem?-set_self css.heap r c curr here) refl (ground arith) in
              (
                r,
                record c { netns_inode = done.0; reg_completed = true },
                known,
                ground (arith, done.1),
                refl,
                ground arith,
                ground arith,
                ground arith,
                ground arith,
                ground arith,
                ground arith,
              )
        ]
  ]
]
