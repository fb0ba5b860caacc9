-- ===== src/State/Registry/Ids.antt =====
-- The ids of the registered containers: a reference of the id table leads to a container of that id.
use sysbox_fs.Prelude.{
  ℕ, zero, suc, String, ◌≡◌, refl, Option, none, some, List, [], ◌∷◌, ◌++◌, ◌==◌, nat_eq, string_eq,
  arith, length, get_elem?, keep, eq_iff, inl, inr, Bool-cases, Option-cases,
}
use sysbox_fs.Prelude.Maps.{lookup, insert, delete, lookup-insert, lookup-delete}
use sysbox_fs.State.Container.{Container, Kernel, update}
use sysbox_fs.State.Registry.{
  Css, Host, set_container, create_fuse_server, destroy_fuse_server, tracked, join_netns,
  track_netns, untrack_netns, left_netns, other_id, enter, state_container, netns_inode_of,
}

abbrev pub id_of : Option Container → Option String
id_of none = none
id_of (some c) = some c.id

-- The id of the container behind a reference.
abbrev pub id_at : List Container → ℕ → Option String
id_at xs r = id_of (get_elem? xs r)

-- Every container of the first heap is in the second, under the same reference and id.
abbrev pub Keeps : List Container → List Container → Type 0
Keeps xs ys = (i : ℕ) (s : String) → id_at xs i ≡ some s → id_at ys i ≡ some s

id_at-set_container :
    (xs : List Container) (r : ℕ) (c : Container) (x : Container)
    → get_elem? xs r ≡ some x
    → c.id ≡ x.id
    → (i : ℕ) → id_at (set_container xs r c) i ≡ id_at xs i
id_at-set_container [] r c x here same i = refl
id_at-set_container (y ∷ xs) zero c x here same zero = ground arith
id_at-set_container (y ∷ xs) zero c x here same (suc i) = refl
id_at-set_container (y ∷ xs) (suc r) c x here same zero = refl
id_at-set_container (y ∷ xs) (suc r) c x here same (suc i) =
    id_at-set_container xs r c x here same i

pub id_at-append : (xs : List Container) (c : Container) → Keeps xs (xs ++ c ∷ [])
id_at-append [] c i s h = absurd (ground arith)
id_at-append (x ∷ xs) c zero s h = h
id_at-append (x ∷ xs) c (suc i) s h = id_at-append xs c i s h

pub id_at-last :
    (xs : List Container) (c : Container) → id_at (xs ++ c ∷ []) (length xs) ≡ some c.id
id_at-last [] c = refl
id_at-last (x ∷ xs) c = id_at-last xs c

pub update-id : (k : Kernel) (c src : Container) → ((update k c src).0).id ≡ c.id
unfolding update
update-id k c src = ground arith

left_netns-same :
    (css : Css) (inode : ℕ) (rs : List ℕ)
    → ((left_netns css inode rs).heap ≡ css.heap)
      × ((left_netns css inode rs).id_table ≡ css.id_table)
      × ((left_netns css inode rs).servers ≡ css.servers)
unfolding left_netns
left_netns-same css inode [] = (refl, refl, refl)
left_netns-same css inode (r ∷ rs) = (refl, refl, refl)

pub untrack_netns-same :
    (css : Css) (c : Container)
    → ((untrack_netns css c).heap ≡ css.heap)
      × ((untrack_netns css c).id_table ≡ css.id_table)
      × ((untrack_netns css c).servers ≡ css.servers)
unfolding untrack_netns
untrack_netns-same css c = elim (Option-cases (lookup c.netns_inode css.netns_table)) [
  | inl gone ↦ ground arith
  | inr (rs, here) ↦
      let left = left_netns-same css c.netns_inode (keep (other_id css c.id) rs) in
      ground (arith, left.0, left.1, left.2)
]

pub destroy-same :
    (host : Host) (css : Css) (id : String)
    → ((destroy_fuse_server host css id).heap ≡ css.heap)
      × ((destroy_fuse_server host css id).id_table ≡ css.id_table)
unfolding destroy_fuse_server
destroy-same host css id = (ground arith, ground arith)

pub create-same :
    (host : Host) (css css' : Css) (id : String) (r : ℕ)
    → create_fuse_server host css id r ≡ some css'
    → (css'.heap ≡ css.heap) × (css'.id_table ≡ css.id_table)
unfolding create_fuse_server
create-same host css css' id r h = (ground arith, ground arith)

-- Writing a container back under its own id.
pub Keeps-write :
    (xs ys : List Container) (r : ℕ) (c x : Container)
    → get_elem? xs r ≡ some x
    → c.id ≡ x.id
    → ys ≡ set_container xs r c
    → Keeps xs ys
Keeps-write xs ys r c x here same e i s h = ground (arith, id_at-set_container xs r c x here same i)

-- What changes no entry of the id table and no server.
abbrev pub SameTables : Css → Css → Type 0
SameTables css css' = (css'.id_table ≡ css.id_table) × (css'.servers ≡ css.servers)

join_netns-tables :
    (css css' : Css) (r inode : ℕ) (c : Container) (sharers : List ℕ)
    → get_elem? css.heap r ≡ some c
    → join_netns css r c inode ≡ tracked sharers css'
    → Keeps css.heap css'.heap × SameTables css css'
unfolding join_netns
join_netns-tables css css' r inode c sharers here h = (
  Keeps-write css.heap css'.heap r (record c { netns_inode = inode }) c here refl (ground arith),
  (ground arith, ground arith),
)

pub track-tables :
    (k : Kernel) (css css' : Css) (r : ℕ) (c : Container) (netns : String) (sharers : List ℕ)
    → get_elem? css.heap r ≡ some c
    → track_netns k css r c netns ≡ tracked sharers css'
    → Keeps css.heap css'.heap × SameTables css css'
unfolding track_netns
track-tables k css css' r c netns sharers here h = elim (Bool-cases (c.netns_inode == 0)) [
  | inr known ↦ (λ i s e. ground arith, (ground arith, ground arith))
  | inl fresh ↦ elim (Option-cases (netns_inode_of k c netns)) [
    | inl nil_init ↦ absurd (ground arith)
    | inr (none, lost) ↦ absurd (ground arith)
    | inr (some inode, found) ↦ join_netns-tables css css' r inode c sharers here (ground arith)
  ]
]

-- The id table's references, and the containers that they name.
abbrev pub IsConsistent : Css → Type 0
IsConsistent css =
    (id : String) (r : ℕ) → lookup id css.id_table ≡ some r → id_at css.heap r ≡ some id

module _ (css css' : Css) (good : IsConsistent css) (kept : Keeps css.heap css'.heap) where
  pub IsConsistent-same : css'.id_table ≡ css.id_table → IsConsistent css'
  IsConsistent-same same id r h = kept r id (good id r (ground arith))

  IsConsistent-insert :
      (new_id : String) (new_ref : ℕ)
      → css'.id_table ≡ insert new_id new_ref css.id_table
      → id_at css'.heap new_ref ≡ some new_id
      → IsConsistent css'
  IsConsistent-insert new_id new_ref ins named id r h = elim (Bool-cases (new_id == id)) [
    | inl same ↦
        ground (arith, lookup-insert new_id id new_ref css.id_table, (eq_iff new_id id).0 same)
    | inr other ↦
        kept r id (good id r (ground (arith, lookup-insert new_id id new_ref css.id_table)))
  ]

  pub IsConsistent-delete :
      (old_id : String) → css'.id_table ≡ delete old_id css.id_table → IsConsistent css'
  IsConsistent-delete old_id del id r h =
      kept r id (good id r (ground (arith, lookup-delete old_id id css.id_table)))

Keeps-eq : (xs ys : List Container) → ys ≡ xs → Keeps xs ys
Keeps-eq xs ys e i s h = ground arith

pub enter-tables :
    (host : Host) (css : Css) (id : String) (r : ℕ) (sharers : List ℕ)
    → ((enter host css id r sharers).1.heap ≡ css.heap)
      × ((enter host css id r sharers).1.id_table ≡ insert id r css.id_table)
unfolding enter
enter-tables host css id r sharers =
    let css' : Css = record css { id_table = insert id r css.id_table } in
    let ref = state_container r sharers in
    elim (Option-cases (create_fuse_server host css' id ref)) [
      | inl failed ↦ ground arith
      | inr (css'', made) ↦
          let same = create-same host css' css'' id ref made in ground (arith, same.0, same.1)
    ]

pub enter-IsConsistent :
    (host : Host) (css css' : Css) (id : String) (r : ℕ) (sharers : List ℕ)
    → IsConsistent css
    → Keeps css.heap css'.heap
    → css'.id_table ≡ css.id_table
    → id_at css'.heap r ≡ some id
    → IsConsistent (enter host css' id r sharers).1
enter-IsConsistent host css css' id r sharers good kept same named =
    let tables = enter-tables host css' id r sharers in
    IsConsistent-insert css (enter host css' id r sharers).1 good
      (λ i s h. ground (arith, kept i s h, tables.0)) id r (ground (arith, tables.1))
      (ground (arith, tables.0))
