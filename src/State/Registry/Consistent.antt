-- ===== src/State/Registry/Consistent.antt =====
-- Every message keeps the id table consistent with the heap of containers.
use sysbox_fs.Prelude.{
  ℕ, zero, suc, String, ◌≡◌, refl, Option, none, some, List, [], ◌∷◌, ◌++◌, ◌==◌, nat_eq, string_eq,
  arith, length, get_elem?, inl, inr, Bool-cases, Option-cases,
}
use sysbox_fs.Prelude.Maps.{lookup, delete}
use sysbox_fs.State.Container.{Container, Kernel, blank, new_container, update}
use sysbox_fs.State.Registry.{
  Css, Host, Message, pre_register, register, unregister, update_ctime, handle, set_container,
  write, destroy_fuse_server, fuse_server_cntr_reg_complete, Tracked, tracked, track_error,
  track_panic, track_netns, untrack_netns, enter_tracked, container_pre_register, complete,
  registered, register_at, container_register, set_ctime, container_update, close_fd, unregister_at,
  container_unregister,
}
use sysbox_fs.State.Registry.Ids.{
  id_at-append, id_at-last, update-id, untrack_netns-same, destroy-same, Keeps-write, track-tables,
  IsConsistent, IsConsistent-same, IsConsistent-delete, enter-IsConsistent,
}

-- A new container at the end of the heap.
abbrev allocated : Css → String → Css
allocated css id = record css { heap = css.heap ++ blank id ∷ [] }

pub get_elem?-allocated :
    (xs : List Container) (c : Container) → get_elem? (xs ++ c ∷ []) (length xs) ≡ some c
get_elem?-allocated [] c = refl
get_elem?-allocated (x ∷ xs) c = get_elem?-allocated xs c

allocated-IsConsistent :
    (css : Css) (id : String) → IsConsistent css → IsConsistent (allocated css id)
allocated-IsConsistent css id good =
    IsConsistent-same css (allocated css id) good (id_at-append css.heap (blank id)) refl

enter_tracked-IsConsistent :
    (host : Host) (css : Css) (id netns : String) (t : Tracked)
    → IsConsistent css
    → track_netns host.kernel (allocated css id) (length css.heap) (blank id) netns ≡ t
    → IsConsistent (enter_tracked host (allocated css id) id (length css.heap) t).1
unfolding enter_tracked
enter_tracked-IsConsistent host css id netns track_error good e = allocated-IsConsistent css id good
enter_tracked-IsConsistent host css id netns track_panic good e = allocated-IsConsistent css id good
enter_tracked-IsConsistent host css id netns (tracked sharers css') good e =
    let new = allocated css id in
    let step =
      track-tables host.kernel new css' (length css.heap) (blank id) netns sharers
        (get_elem?-allocated css.heap (blank id)) e in
    enter-IsConsistent host new css' id (length css.heap) sharers
      (allocated-IsConsistent css id good) step.0 step.1.0
      (step.0 (length css.heap) id (id_at-last css.heap (blank id)))

pub container_pre_register-IsConsistent :
    (host : Host) (css : Css) (id netns : String)
    → IsConsistent css
    → IsConsistent (container_pre_register host css id netns).1
unfolding container_pre_register
container_pre_register-IsConsistent host css id netns good =
    elim (Option-cases (lookup id css.id_table)) [
      | inr (r, known) ↦ λ i s h. ground (arith, good i s)
      | inl fresh ↦ elim (Bool-cases (netns == "")) [
        | inl without ↦
            let done =
              enter-IsConsistent host css (allocated css id) id (length css.heap) [] good
                (id_at-append css.heap (blank id)) refl (id_at-last css.heap (blank id)) in
            λ i s h. ground (arith, done i s)
        | inr shared ↦
            let new = allocated css id in
            let t = track_netns host.kernel new (length css.heap) (blank id) netns in
            let done = enter_tracked-IsConsistent host css id netns t good refl in
            λ i s h. ground (arith, done i s)
      ]
    ]

module _ (css : Css) (r : ℕ) (c x : Container) (here : get_elem? css.heap r ≡ some x) where
  write-IsConsistent : c.id ≡ x.id → IsConsistent css → IsConsistent (write css r c)
  write-IsConsistent same good =
      IsConsistent-same css (write css r c) good (Keeps-write css.heap _ r c x here same refl) refl

complete-IsConsistent :
    (css : Css) (r : ℕ) (o : Option Container)
    → get_elem? css.heap r ≡ o
    → IsConsistent css
    → IsConsistent (complete css r o)
unfolding complete
complete-IsConsistent css r none e good = good
complete-IsConsistent css r (some c) e good = write-IsConsistent css r _ c e refl good

set_ctime-IsConsistent :
    (css : Css) (r t : ℕ) (o : Option Container)
    → get_elem? css.heap r ≡ o
    → IsConsistent css
    → IsConsistent (set_ctime css r t o)
unfolding set_ctime
set_ctime-IsConsistent css r t none e good = good
set_ctime-IsConsistent css r t (some c) e good = write-IsConsistent css r _ c e refl good

pub complete_server-same :
    (css : Css) (id : String)
    → ((fuse_server_cntr_reg_complete css id).heap ≡ css.heap)
      × ((fuse_server_cntr_reg_complete css id).id_table ≡ css.id_table)
unfolding fuse_server_cntr_reg_complete
complete_server-same css id = (ground arith, ground arith)

registered-IsConsistent :
    (k : Kernel) (css : Css) (id : String) (r : ℕ) (c : Container) (t : Tracked)
    → IsConsistent css
    → get_elem? css.heap r ≡ some c
    → track_netns k css r c "" ≡ t
    → IsConsistent (registered css id r t).1
unfolding registered
registered-IsConsistent k css id r c track_error good here e = good
registered-IsConsistent k css id r c track_panic good here e = good
registered-IsConsistent k css id r c (tracked sharers css') good here e =
    let step = track-tables k css css' r c "" sharers here e in
    let same = complete_server-same css' id in
    let served = fuse_server_cntr_reg_complete css' id in
    complete-IsConsistent served r (get_elem? served.heap r) refl (
      IsConsistent-same css served good (λ i s h. ground (arith, step.0 i s h, same.0))
        (ground (arith, same.1, step.1.0)))

pub get_elem?-set_self :
    (xs : List Container) (r : ℕ) (c x : Container)
    → get_elem? xs r ≡ some x
    → get_elem? (set_container xs r c) r ≡ some c
get_elem?-set_self [] r c x h = absurd (ground arith)
get_elem?-set_self (y ∷ xs) zero c x h = refl
get_elem?-set_self (y ∷ xs) (suc r) c x h = get_elem?-set_self xs r c x h

pub close_fd-same :
    (css : Css) (fd : ℕ)
    → ((close_fd css fd).heap ≡ css.heap)
      × ((close_fd css fd).id_table ≡ css.id_table)
      × ((close_fd css fd).servers ≡ css.servers)
unfolding close_fd
close_fd-same css fd = ground arith

register_at-IsConsistent :
    (host : Host) (css : Css) (r : ℕ) (o : Option Container) (src : Container)
    → get_elem? css.heap r ≡ o
    → IsConsistent css
    → IsConsistent (register_at host css r o src).1
unfolding register_at
register_at-IsConsistent host css r none src e good = good
register_at-IsConsistent host css r (some curr) src e good =
    let c = (update host.kernel curr src).0 in
    let css' = write css r c in
    let written = write-IsConsistent css r c curr e (update-id host.kernel curr src) good in
    elim (Bool-cases (update host.kernel curr src).1) [
      | inr bad ↦ λ i s h. ground (arith, written i s)
      | inl fine ↦
          let done =
            registered-IsConsistent host.kernel css' src.id r c
              (track_netns host.kernel css' r c "") written (get_elem?-set_self css.heap r c curr e)
              refl in
          λ i s h. ground (arith, done i s)
    ]

unregister_at-IsConsistent :
    (host : Host) (css : Css) (o : Option Container)
    → IsConsistent css
    → IsConsistent (unregister_at host css o).1
unfolding unregister_at
unregister_at-IsConsistent host css none good = good
unregister_at-IsConsistent host css (some c) good =
    let closed = close_fd css c.init_pid_fd in
    let left = untrack_netns closed c in
    let gone = destroy_fuse_server host left c.id in
    let a = close_fd-same css c.init_pid_fd in
    let b = untrack_netns-same closed c in
    let d = destroy-same host left c.id in
    IsConsistent-delete css (record gone { id_table = delete c.id gone.id_table }) good
      (λ i s h. ground (arith, a.0, b.0, d.0, h)) c.id (ground (arith, a.1, b.1, d.1))

container_update-IsConsistent :
    (css : Css) (src : Container) → IsConsistent css → IsConsistent (container_update css src).1
unfolding container_update
container_update-IsConsistent css src good = elim (Option-cases (lookup src.id css.id_table)) [
  | inl unknown ↦ λ i s h. ground (arith, good i s)
  | inr (r, known) ↦
      let done = set_ctime-IsConsistent css r src.ctime (get_elem? css.heap r) refl good in
      λ i s h. ground (arith, done i s)
]

container_register-IsConsistent :
    (host : Host) (css : Css) (src : Container)
    → IsConsistent css
    → IsConsistent (container_register host css src).1
unfolding container_register
container_register-IsConsistent host css src good =
    elim (Option-cases (lookup src.id css.id_table)) [
      | inl unknown ↦ λ i s h. ground (arith, good i s)
      | inr (r, known) ↦
          let done = register_at-IsConsistent host css r (get_elem? css.heap r) src refl good in
          λ i s h. ground (arith, done i s)
    ]

container_unregister-IsConsistent :
    (host : Host) (css : Css) (id : String)
    → IsConsistent css
    → IsConsistent (container_unregister host css id).1
unfolding container_unregister
container_unregister-IsConsistent host css id good = elim (Option-cases (lookup id css.id_table)) [
  | inl unknown ↦ λ i s h. ground (arith, good i s)
  | inr (r, known) ↦
      let done = unregister_at-IsConsistent host css (get_elem? css.heap r) good in
      λ i s h. ground (arith, done i s)
]

pub handle-IsConsistent :
    (host : Host) (css : Css) (m : Message) → IsConsistent css → IsConsistent (handle host css m).1
unfolding handle
handle-IsConsistent host css (pre_register d) good =
    container_pre_register-IsConsistent host css d.id d.netns good
handle-IsConsistent host css (register d) good =
    container_register-IsConsistent host css (new_container d) good
handle-IsConsistent host css (unregister d) good =
    container_unregister-IsConsistent host css d.id good
handle-IsConsistent host css (update_ctime d) good =
    container_update-IsConsistent css (new_container d) good
