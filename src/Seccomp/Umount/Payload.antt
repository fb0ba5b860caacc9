-- ===== src/Seccomp/Umount/Payload.antt =====
-- The instructions of an unmount of a base mount.
use sysbox_fs.Prelude.{
  ℕ, String, ◌≡◌, ◌≢◌, refl, true, Option, none, some, List, [], ◌∷◌, ◌++◌, map, string_eq, arith,
  inl, inr, Bool-cases, Option-cases, ◌==◌, ==-refl, get_elem?,
}
use sysbox_fs.Prelude.Maps.{Map, lookup}
use sysbox_fs.Mount.Info.{MountInfo, MountInfoParser, get_info}
use sysbox_fs.Mount.Info.Indexed.{IsIndexed, get_info-mount_point, get_info-key}
use sysbox_fs.Mount.Query.{
  holds, is_sysboxfs_base_mount, is_sysboxfs_submount_of, submounts_loop, submounts_under,
  get_sysboxfs_submounts,
}
use mathlib.Core.List.{Memᴰ}
use mathlib.Core.List.Memᴰ
use sysbox_fs.Prelude.{Bool, false, ◌↔◌, ◌⊎◌, eq_iff, sym, ap, subst, ◌∙◌}
use sysbox_fs.Prelude.Int.{int_beq_iff}
use sysbox_fs.Prelude.Membership.{any-Memᴰ, any-of_Memᴰ}
use sysbox_fs.Text.{has_suffix, trim_prefix}
use sysbox_fs.Mount.Query.{is_mountpoint_under, is_base_info}
use sysbox_fs.Seccomp.Context.{MountPayload}
use sysbox_fs.Seccomp.Umount.{umount_element, elements, umount_all, create_umount_payload}

-- Every mountpoint of the list has an entry.
abbrev pub AllKnown : MountInfoParser → List String → Type 0
AllKnown mi [] = Unit
AllKnown mi (mp ∷ mps) = (get_info mi mp ≢ none) × AllKnown mi mps

abbrev pub or_none : Option (List String) → List String
or_none none = []
or_none (some l) = l

lookup-cons :
    (k j : String) (r : ℕ) (m : Map String ℕ) → lookup k m ≢ none → lookup k ((j, r) ∷ m) ≢ none
unfolding lookup
lookup-cons k j r m h = λ e. ground arith

lookup-cons_self : (k : String) (r : ℕ) (m : Map String ℕ) → lookup k ((k, r) ∷ m) ≢ none
unfolding lookup
lookup-cons_self k r m = λ e. ground (arith, ==-refl k)

submounts_loop-AllKnown :
    (mi : MountInfoParser) (base : MountInfo) (m : Map String ℕ)
    → IsIndexed mi
    → ((k : String) → lookup k m ≢ none → lookup k mi.mp_info ≢ none)
    → AllKnown mi (submounts_loop mi base m)
unfolding submounts_loop
submounts_loop-AllKnown mi base [] ix sub = tt
submounts_loop-AllKnown mi base ((mp, r) ∷ m) ix sub =
    let rest = submounts_loop-AllKnown mi base m ix (λ k h. sub k (lookup-cons k mp r m h)) in
    elim (Bool-cases (holds (λ info. is_sysboxfs_submount_of mi info base) (get_elem? mi.heap r))) [
      | inl hit ↦ rw hit (get_info-key mi mp ix (sub mp (lookup-cons_self mp r m)), rest)
      | inr miss ↦ rw miss rest
    ]

submounts_under-AllKnown :
    (mi : MountInfoParser) (o : Option MountInfo)
    → IsIndexed mi
    → AllKnown mi (or_none (submounts_under mi o))
unfolding submounts_under
submounts_under-AllKnown mi none ix =
    elim mi.mp_info as (λ m. AllKnown mi (or_none (elim m [ [] ↦ some [] | entry ∷ m' ↦ none ]))) [
      | [] ↦ tt
      | entry ∷ m ↦ tt
    ]
submounts_under-AllKnown mi (some base) ix =
    submounts_loop-AllKnown mi base mi.mp_info ix (λ k h. h)

pub submounts-AllKnown :
    (mi : MountInfoParser) (mp : String)
    → IsIndexed mi
    → AllKnown mi (or_none (get_sysboxfs_submounts mi mp))
unfolding get_sysboxfs_submounts
submounts-AllKnown mi mp ix = submounts_under-AllKnown mi (get_info mi mp) ix

elements-map :
    (mi : MountInfoParser) (flags : ℕ) (mps : List String)
    → IsIndexed mi
    → AllKnown mi mps
    → elements mi flags mps ≡ some (map (umount_element flags) mps)
unfolding elements
elements-map mi flags [] ix known = refl
elements-map mi flags (mp ∷ mps) ix known = elim (Option-cases (get_info mi mp)) [
  | inl e ↦ absurd (known.0 e)
  | inr (info, e) ↦
      ground
        (arith, get_info-mount_point mi mp {info = info} ix, elements-map mi flags mps ix known.1)
]

-- A listed path that ends with what a mountpoint has behind that of the base.
abbrev pub Listed : MountInfo → MountInfo → List String → Type 0
Listed info base paths =
    (p : String) × Memᴰ p paths
    × (has_suffix p (trim_prefix info.mount_point base.mount_point) ≡ true)

-- A child of the base at a path that sysbox-fs manages, by the lists of the container.
pub data IsSubmount (mi : MountInfoParser) (info base : MountInfo) : Type 0 where
  at_proc : base.fs_type ≡ "proc" → Listed info base mi.paths.proc_mounts → IsSubmount mi info base
  read_only_proc :
      base.fs_type ≡ "proc" → Listed info base mi.paths.proc_ro_paths → IsSubmount mi info base
  masked_proc :
      base.fs_type ≡ "proc" → Listed info base mi.paths.proc_mask_paths → IsSubmount mi info base
  at_sys : base.fs_type ≡ "sysfs" → Listed info base mi.paths.sys_mounts → IsSubmount mi info base

Listed-iff :
    (info base : MountInfo) (paths : List String)
    → (is_mountpoint_under (trim_prefix info.mount_point base.mount_point) paths ≡ true)
      ↔ Listed info base paths
unfolding is_mountpoint_under
Listed-iff info base paths = (
  λ h. any-Memᴰ (λ p. has_suffix p (trim_prefix info.mount_point base.mount_point)) paths h,
  λ (p, m, h).
      any-of_Memᴰ (λ p. has_suffix p (trim_prefix info.mount_point base.mount_point)) paths p m h,
)

IsSubmount-sound :
    (mi : MountInfoParser) (info base : MountInfo)
    → is_sysboxfs_submount_of mi info base ≡ true
    → (info.parent_id ≡ base.mount_id) × IsSubmount mi info base
unfolding is_sysboxfs_submount_of
IsSubmount-sound mi info base h =
    let rel = trim_prefix info.mount_point base.mount_point in
    (
      ground (arith, int_beq_iff info.parent_id base.mount_id),
      elim (Bool-cases (base.fs_type == "proc")) [
        | inl proc ↦ elim (Bool-cases (is_mountpoint_under rel mi.paths.proc_mounts)) [
          | inl m ↦ at_proc ((eq_iff _ _).0 proc) ((Listed-iff info base _).0 m)
          | inr a ↦ elim (Bool-cases (is_mountpoint_under rel mi.paths.proc_ro_paths)) [
            | inl m ↦ read_only_proc ((eq_iff _ _).0 proc) ((Listed-iff info base _).0 m)
            | inr b ↦ masked_proc ((eq_iff _ _).0 proc) ((Listed-iff info base _).0 (ground arith))
          ]
        ]
        | inr other ↦
            at_sys ((eq_iff base.fs_type "sysfs").0 (ground arith))
              ((Listed-iff info base _).0 (ground arith))
      ],
    )

IsSubmount-complete :
    (mi : MountInfoParser) (info base : MountInfo)
    → info.parent_id ≡ base.mount_id
    → IsSubmount mi info base
    → is_sysboxfs_submount_of mi info base ≡ true
unfolding is_sysboxfs_submount_of
IsSubmount-complete mi info base child (at_proc fs l) = ground (
  arith,
  int_beq_iff info.parent_id base.mount_id,
  eq_iff base.fs_type "proc",
  (Listed-iff info base mi.paths.proc_mounts).1 l,
)
IsSubmount-complete mi info base child (read_only_proc fs l) = ground (
  arith,
  int_beq_iff info.parent_id base.mount_id,
  eq_iff base.fs_type "proc",
  (Listed-iff info base mi.paths.proc_ro_paths).1 l,
)
IsSubmount-complete mi info base child (masked_proc fs l) = ground (
  arith,
  int_beq_iff info.parent_id base.mount_id,
  eq_iff base.fs_type "proc",
  (Listed-iff info base mi.paths.proc_mask_paths).1 l,
)
IsSubmount-complete mi info base child (at_sys fs l) = rw fs (
    ground (
      arith,
      int_beq_iff info.parent_id base.mount_id,
      (Listed-iff info base mi.paths.sys_mounts).1 l,
    ))

-- A mountpoint in the loop's result: an entry of the map whose mount is such a child.
abbrev pub IsListedChild : MountInfoParser → MountInfo → Map String ℕ → String → Type 0
IsListedChild mi base m mp =
    (r : ℕ) × (info : MountInfo) × Memᴰ (mp, r) m
    × (get_elem? mi.heap r ≡ some info)
    × (info.parent_id ≡ base.mount_id)
    × IsSubmount mi info base

wider :
    (mi : MountInfoParser) (base : MountInfo) (e : String × ℕ) (m : Map String ℕ) (mp : String)
    → IsListedChild mi base m mp
    → IsListedChild mi base (e ∷ m) mp
wider mi base e m mp (r, info, there, found, child, sub) =
    (r, info, Memᴰ.tail there, found, child, sub)

-- Whether the loop takes an entry.
abbrev taken : MountInfoParser → MountInfo → ℕ → Bool
taken mi base r = holds (λ info. is_sysboxfs_submount_of mi info base) (get_elem? mi.heap r)

loop_taken :
    (mi : MountInfoParser) (base : MountInfo) (k : String) (r : ℕ) (m : Map String ℕ)
    → taken mi base r ≡ true
    → submounts_loop mi base ((k, r) ∷ m) ≡ k ∷ submounts_loop mi base m
unfolding submounts_loop
loop_taken mi base k r m h = rw h refl

loop_passed :
    (mi : MountInfoParser) (base : MountInfo) (k : String) (r : ℕ) (m : Map String ℕ)
    → taken mi base r ≡ false
    → submounts_loop mi base ((k, r) ∷ m) ≡ submounts_loop mi base m
unfolding submounts_loop
loop_passed mi base k r m h = rw h refl

taken_child :
    (mi : MountInfoParser) (base : MountInfo) (r : ℕ)
    → taken mi base r ≡ true
    → (info : MountInfo) × (get_elem? mi.heap r ≡ some info)
      × (info.parent_id ≡ base.mount_id)
      × IsSubmount mi info base
unfolding holds
taken_child mi base r h = elim (Option-cases (get_elem? mi.heap r)) [
  | inl gone ↦ absurd (ground arith)
  | inr (info, e) ↦
      let (child, sub) = IsSubmount-sound mi info base (ground arith) in (info, e, child, sub)
]

taken_of :
    (mi : MountInfoParser) (base info : MountInfo) (r : ℕ)
    → get_elem? mi.heap r ≡ some info
    → info.parent_id ≡ base.mount_id
    → IsSubmount mi info base
    → taken mi base r ≡ true
unfolding holds
taken_of mi base info r e child sub = rw e (IsSubmount-complete mi info base child sub)

loop_sound :
    (mi : MountInfoParser) (base : MountInfo) (m : Map String ℕ) (mp : String)
    → Memᴰ mp (submounts_loop mi base m)
    → IsListedChild mi base m mp
unfolding submounts_loop
loop_sound mi base [] mp h = absurd (Memᴰ.not-nil h)
loop_sound mi base ((k, r) ∷ m) mp h = elim (Bool-cases (taken mi base r)) [
  | inr miss ↦
      wider mi base (k, r) m mp
        (loop_sound mi base m mp (subst (Memᴰ mp) (loop_passed mi base k r m miss) h))
  | inl hit ↦ elim (Memᴰ.cases_cons (subst (Memᴰ mp) (loop_taken mi base k r m hit) h)) [
    | inr later ↦ wider mi base (k, r) m mp (loop_sound mi base m mp later)
    | inl same ↦
        let (info, e, child, sub) = taken_child mi base r hit in
        (r, info, Memᴰ.head (ap (λ x. (x, r)) same), e, child, sub)
  ]
]

loop_complete :
    (mi : MountInfoParser) (base : MountInfo) (m : Map String ℕ) (mp : String)
    → IsListedChild mi base m mp
    → Memᴰ mp (submounts_loop mi base m)
loop_complete mi base [] mp (r, info, there, e, child, sub) = absurd (Memᴰ.not-nil there)
loop_complete mi base ((k, j) ∷ m) mp (r, info, there, e, child, sub) =
    elim (Memᴰ.cases_cons there) [
      | inl same ↦
          let hit =
            taken_of mi base info j (ap (λ x. get_elem? mi.heap x.1) (sym same) ∙ e) child sub in
          subst (Memᴰ mp) (sym (loop_taken mi base k j m hit)) (Memᴰ.head (ap (λ x. x.0) same))
      | inr later ↦
          let rest = loop_complete mi base m mp (r, info, later, e, child, sub) in
          elim (Bool-cases (taken mi base j)) [
            | inl hit ↦ subst (Memᴰ mp) (sym (loop_taken mi base k j m hit)) (Memᴰ.tail rest)
            | inr miss ↦ subst (Memᴰ mp) (sym (loop_passed mi base k j m miss)) rest
          ]
    ]

-- With maps in step with the mounts, a procfs or sysfs with root / is unmounted by one instruction
-- for each of some mountpoints, with the flags of the request, and then by the request itself; and
-- these mountpoints are exactly the keys of the map whose mount names the ID of the base as its
-- parent and stands, below the base, at the end of a path that the lists of sysbox-fs or of the
-- container have for that file system.
pub create_umount_payload-base :
    (mi : MountInfoParser) (request : MountPayload) (base : MountInfo)
    → IsIndexed mi
    → get_info mi request.target ≡ some base
    → (base.fs_type ≡ "proc") ⊎ (base.fs_type ≡ "sysfs")
    → base.root ≡ "/"
    → (mps : List String) × (create_umount_payload mi request
        ≡ some (map (umount_element request.flags) mps ++ request ∷ []))
      × ((mp : String) → Memᴰ mp mps ↔ IsListedChild mi base mi.mp_info mp)
unfolding create_umount_payload umount_all is_sysboxfs_base_mount is_base_info holds
    get_sysboxfs_submounts submounts_under
create_umount_payload-base mi request base ix found kind root =
    let mps = submounts_loop mi base mi.mp_info in
    let is_base : is_base_info base ≡ true =
      ground
        (arith, eq_iff base.fs_type "proc", eq_iff base.fs_type "sysfs", eq_iff base.root "/") in
    let whole =
      elements-map mi request.flags mps ix
        (submounts_loop-AllKnown mi base mi.mp_info ix (λ k h. h)) in
    (
      mps,
      ground (arith, found, is_base, whole),
      λ mp. (loop_sound mi base mi.mp_info mp, loop_complete mi base mi.mp_info mp),
    )

pub create_umount_payload-defined :
    (mi : MountInfoParser) (request : MountPayload)
    → IsIndexed mi
    → is_sysboxfs_base_mount mi request.target ≡ true
    → (payload : List MountPayload) × (create_umount_payload mi request ≡ some payload)
unfolding is_sysboxfs_base_mount is_base_info holds
create_umount_payload-defined mi request ix h = elim (Option-cases (get_info mi request.target)) [
  | inl gone ↦ absurd (ground arith)
  | inr (base, found) ↦
      let kind : (base.fs_type ≡ "proc") ⊎ (base.fs_type ≡ "sysfs") =
        elim (Bool-cases (base.fs_type == "proc")) [
          | inl proc ↦ inl ((eq_iff _ _).0 proc)
          | inr other ↦ inr ((eq_iff base.fs_type "sysfs").0 (ground arith))
        ] in
      let root : base.root ≡ "/" = (eq_iff base.root "/").0 (ground arith) in
      let (mps, e, members) = create_umount_payload-base mi request base ix found kind root in
      (map (umount_element request.flags) mps ++ request ∷ [], e)
]
