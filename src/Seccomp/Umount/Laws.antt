-- ===== src/Seccomp/Umount/Laws.antt =====
-- Which unmounts are refused, forwarded or carried out.
use sysbox_fs.Prelude.{
  Option, none, ◌&&◌, ◌||◌, ℕ, String, ◌≡◌, ◌≢◌, refl, ap, Bool, true, false, some, ◌==◌, nat_eq,
  string_eq, arith, get_elem?, Result, ok, err, inl, inr, Bool-cases, Option-cases, Result-cases,
  eq_iff, ◌⊎◌,
}
use sysbox_fs.Prelude.Maps.{lookup}
use sysbox_fs.Prelude.Int.{int_eq}
use sysbox_fs.Mount.Info.{MountInfo, MountInfoParser}
use sysbox_fs.Mount.Query.{is_overlap_mount, is_sysboxfs_base_mount}
use sysbox_fs.Mount.Clone.{
  extract_inode, InodeError, Parsers, Loc, in_process, is_root_mount, is_clone_mount,
}
use sysbox_fs.Seccomp.Context.{is_response}
use sysbox_fs.Seccomp.Context.{
  Event, send_failed, SyscallCtx, Verdict, allowed, denied, deny, eperm, einval, MountPayload,
  crashed, target_adjust,
}
use sysbox_fs.Mount.Query.Laws.{submounts_defined}
use sysbox_fs.Mount.Info.Indexed.{IsIndexed}
use sysbox_fs.Seccomp.Umount.Payload.{create_umount_payload-defined}
use sysbox_fs.Seccomp.Context.Laws.{after_event-responds, is_there, responds-not_crashed}
use sysbox_fs.Seccomp.Umount.{
  is_immutable_mount_id, is_immutable_mountpoint, is_immutable_overlap_mountpoint, is_root_mount_id,
  on_query, umount_other_ns, umount_same_ns, umount_unshared, umount_by_clone, umount_pivoted,
  umount_pivoted_chroot, umount_allowed, umount_known, same_namespace, same_root, with_root_inode,
  umount_target, process_umount, umount_event, after_verdict, unless_immutable, unless_clone,
  let_go, umount_process,
}

-- In the container's own mount namespace an immutable mount that is not the root is never given
-- free: the answer is EPERM, or EINVAL where the debug path cannot read the chroot's root inode.
pub umount_same_ns-immutable :
    (ctx : SyscallCtx) (ps ps' : Parsers) (info : MountInfo)
    → is_root_mount_id ctx ps info.mount_id ≡ (ok false, ps')
    → is_immutable_mount_id ps' info.mount_id ≡ true
    → ((umount_same_ns ctx ps info).0 ≡ deny ctx eperm)
      ⊎ ((umount_same_ns ctx ps info).0 ≡ deny ctx einval)
unfolding umount_same_ns
umount_same_ns-immutable ctx ps ps' info root imm = ground arith

-- Why the unmount of the object at `r` of the process' parser, with the entry `info`, may go ahead.
-- By the scenario: the container's own mount namespace; another one with the container's root; one
-- after a pivot-root.
pub data Grounds (ctx : SyscallCtx) (ps : Parsers) (r : ℕ) (info : MountInfo) : Type 0 where
  root_by_id :
      same_namespace ctx ≡ true
      → (is_root_mount_id ctx ps info.mount_id).0 ≡ ok true
      → Grounds ctx ps r info
  unlisted_id :
      same_namespace ctx ≡ true
      → (is_root_mount_id ctx ps info.mount_id).0 ≡ ok false
      → is_immutable_mount_id (is_root_mount_id ctx ps info.mount_id).1 info.mount_id ≡ false
      → Grounds ctx ps r info
  root_path :
      same_namespace ctx ≡ false
      → same_root ctx ps ≡ true
      → info.mount_point ≡ "/"
      → Grounds ctx ps r info
  unlisted_path :
      same_namespace ctx ≡ false
      → same_root ctx ps ≡ true
      → is_immutable_mountpoint ps info.mount_point ≡ false
      → Grounds ctx ps r info
  stacked :
      same_namespace ctx ≡ false
      → same_root ctx ps ≡ true
      → is_overlap_mount (with_root_inode ctx ps).process info ≡ true
      → is_immutable_overlap_mountpoint ps info.mount_point ≡ false
      → Grounds ctx ps r info
  stacked_after_pivot :
      same_namespace ctx ≡ false
      → same_root ctx ps ≡ false
      → ctx.process_info.root ≡ "/"
      → is_overlap_mount ps.process info ≡ true
      → Grounds ctx ps r info
  root_clone :
      same_namespace ctx ≡ false
      → same_root ctx ps ≡ false
      → (is_root_mount ctx.depth ctx.inodes (with_root_inode ctx ps) (in_process, r)).0 ≡ ok true
      → Grounds ctx ps r info
  no_clone :
      same_namespace ctx ≡ false
      → same_root ctx ps ≡ false
      → (is_root_mount ctx.depth ctx.inodes (with_root_inode ctx ps) (in_process, r)).0 ≡ ok false
      → (is_clone_mount ctx.depth ctx.inodes false
          (is_root_mount ctx.depth ctx.inodes (with_root_inode ctx ps) (in_process, r)).1
          (in_process, r)).0
        ≡ ok false
      → Grounds ctx ps r info
  stacked_no_clone :
      same_namespace ctx ≡ false
      → same_root ctx ps ≡ false
      → is_overlap_mount (with_root_inode ctx ps).process info ≡ true
      → (is_clone_mount ctx.depth ctx.inodes false (with_root_inode ctx ps) (in_process, r)).0
        ≡ ok false
      → Grounds ctx ps r info

pub on_query-allowed :
    (ctx : SyscallCtx) (q : Result InodeError Bool × Parsers) (yes_verdict : Verdict)
    (otherwise : Parsers → Verdict × Parsers)
    → (on_query ctx q yes_verdict otherwise).0 ≡ allowed
    → ((q ≡ (ok true, q.1)) × (yes_verdict ≡ allowed))
      ⊎ ((q ≡ (ok false, q.1)) × ((otherwise q.1).0 ≡ allowed))
unfolding on_query
on_query-allowed ctx (ok true, ps) y k h = inl (refl, h)
on_query-allowed ctx (ok false, ps) y k h = inr (refl, h)
on_query-allowed ctx (err e, ps) y k h = ground arith

not-rejected :
    (ctx : SyscallCtx) (ps : Parsers) (info : MountInfo)
    → (unless_immutable ctx info ps).0 ≡ allowed
    → is_immutable_mount_id ps info.mount_id ≡ false
unfolding unless_immutable
not-rejected ctx ps info h = ground arith

unless_clone-allowed :
    (ctx : SyscallCtx) (m : Loc) (ps : Parsers)
    → (unless_clone ctx m ps).0 ≡ allowed
    → (is_clone_mount ctx.depth ctx.inodes false ps m).0 ≡ ok false
unfolding unless_clone
unless_clone-allowed ctx m ps h =
    let query = is_clone_mount ctx.depth ctx.inodes false ps m in
    elim (on_query-allowed ctx query (deny ctx eperm) let_go h) [
      | inl (_, bad) ↦ absurd (ground arith)
      | inr (q, _) ↦ ap (λ x. x.0) q
    ]

module _ (ctx : SyscallCtx) (ps : Parsers) (r : ℕ) (info : MountInfo) where
  same_ns-Grounds :
      same_namespace ctx ≡ true → (umount_same_ns ctx ps info).0 ≡ allowed → Grounds ctx ps r info
  unfolding umount_same_ns
  same_ns-Grounds same h =
      let query = is_root_mount_id ctx ps info.mount_id in
      elim (on_query-allowed ctx query allowed (unless_immutable ctx info) h) [
        | inl (q, _) ↦ root_by_id same (ap (λ x. x.0) q)
        | inr (q, rest) ↦ unlisted_id same (ap (λ x. x.0) q) (not-rejected ctx query.1 info rest)
      ]

  module _ (other : same_namespace ctx ≡ false) where
    unshared-Grounds :
        (ps' : Parsers)
        → with_root_inode ctx ps ≡ ps'
        → ps'.container ≡ ps.container
        → same_root ctx ps ≡ true
        → umount_unshared ctx ps' info ≡ allowed
        → Grounds ctx ps r info
    unfolding umount_unshared is_immutable_mountpoint is_immutable_overlap_mountpoint
    unshared-Grounds ps' now cntr same h = elim (Bool-cases (is_overlap_mount ps'.process info)) [
      | inl over ↦ stacked other same (rw now over) (ground arith)
      | inr plain ↦ elim (Bool-cases (info.mount_point == "/")) [
        | inl root ↦ root_path other same ((eq_iff _ _).0 root)
        | inr apart ↦ unlisted_path other same (ground arith)
      ]
    ]

    by_clone-Grounds :
        same_root ctx ps ≡ false
        → (umount_by_clone ctx (with_root_inode ctx ps) (in_process, r)).0 ≡ allowed
        → Grounds ctx ps r info
    unfolding umount_by_clone
    by_clone-Grounds moved h =
        let m : Loc = (in_process, r) in
        let query = is_root_mount ctx.depth ctx.inodes (with_root_inode ctx ps) m in
        elim (on_query-allowed ctx query allowed (unless_clone ctx m) h) [
          | inl (q, _) ↦ root_clone other moved (ap (λ x. x.0) q)
          | inr (q, rest) ↦
              no_clone other moved (ap (λ x. x.0) q) (unless_clone-allowed ctx m query.1 rest)
        ]

    pivoted-Grounds :
        ctx.process_info.root ≡ "/"
        → same_root ctx ps ≡ false
        → (umount_pivoted ctx ps (in_process, r) info).0 ≡ allowed
        → Grounds ctx ps r info
    unfolding umount_pivoted
    pivoted-Grounds plain_root moved h = elim (Bool-cases (is_overlap_mount ps.process info)) [
      | inl over ↦ stacked_after_pivot other moved plain_root over
      | inr plain ↦ by_clone-Grounds moved (ground (arith, eq_iff ctx.process_info.root "/"))
    ]

    pivoted_chroot-Grounds :
        same_root ctx ps ≡ false
        → (umount_pivoted_chroot ctx (with_root_inode ctx ps) (in_process, r) info).0 ≡ allowed
        → Grounds ctx ps r info
    unfolding umount_pivoted_chroot
    pivoted_chroot-Grounds moved h =
        let ps' = with_root_inode ctx ps in
        elim (Bool-cases (is_overlap_mount ps'.process info)) [
          | inl over ↦
              stacked_no_clone other moved over
                (unless_clone-allowed ctx (in_process, r) ps' (ground arith))
          | inr plain ↦ by_clone-Grounds moved (ground arith)
        ]

    other_ns-Grounds :
        (umount_other_ns ctx ps (in_process, r) info).0 ≡ allowed → Grounds ctx ps r info
    unfolding umount_other_ns
    other_ns-Grounds h = elim (Bool-cases (ctx.process_info.root == "/")) [
      | inl plain ↦ elim (Bool-cases (ctx.process_info.root_inode == ctx.init_proc.root_inode)) [
        | inl same ↦ unshared-Grounds ps (ground arith) refl (ground arith) (ground arith)
        | inr moved ↦ pivoted-Grounds ((eq_iff _ _).0 plain) (ground arith) (ground arith)
      ]
      | inr jailed ↦
          let mi = (extract_inode ctx.inodes ps.process "/").1 in
          let ps' : Parsers = record ps { process = mi } in
          elim (Result-cases (extract_inode ctx.inodes ps.process "/").0) [
            | inr (e, bad) ↦ absurd (ground arith)
            | inl (i, good) ↦ elim (Bool-cases (i == ctx.init_proc.root_inode)) [
              | inl same ↦ unshared-Grounds ps' (ground arith) refl (ground arith) (ground arith)
              | inr moved ↦ pivoted_chroot-Grounds (ground arith) (ground arith)
            ]
          ]
    ]

  known-Grounds : (umount_known ctx ps r info).0 ≡ allowed → Grounds ctx ps r info
  unfolding umount_known
  known-Grounds h = elim (Option-cases ctx.process_info.mount_ns) [
    | inl no_ns ↦ absurd (ground arith)
    | inr (n, ns) ↦ elim (Option-cases ctx.init_proc.mount_ns) [
      | inl no_init ↦ absurd (ground arith)
      | inr (k, init) ↦ elim (Bool-cases (n == k)) [
        | inl same ↦ same_ns-Grounds (ground arith) (ground arith)
        | inr other ↦ other_ns-Grounds (ground arith) (ground arith)
      ]
    ]
  ]

-- Unless immutable unmounts are allowed by configuration, an unmount that goes ahead has an entry in
-- the process' mountinfo, and goes ahead on one of the grounds above.
pub umount_allowed-Grounds :
    (ctx : SyscallCtx) (ps : Parsers) (target : String)
    → ctx.allow_immutable_unmounts ≡ false
    → (umount_allowed ctx ps target).0 ≡ allowed
    → (r : ℕ) × (info : MountInfo) × (lookup target ps.process.mp_info ≡ some r)
      × (get_elem? ps.process.heap r ≡ some info)
      × Grounds ctx ps r info
unfolding umount_allowed
umount_allowed-Grounds ctx ps target off h =
    elim (Option-cases (lookup target ps.process.mp_info)) [
      | inl missing ↦ absurd (ground arith)
      | inr (r, found) ↦ elim (Option-cases (get_elem? ps.process.heap r)) [
        | inl dangling ↦ absurd (ground arith)
        | inr (info, entry) ↦ (r, info, found, entry, known-Grounds ctx ps r info (ground arith))
      ]
    ]

after_verdict-responds :
    (ctx : SyscallCtx) (v : Verdict × Parsers) → is_response (after_verdict ctx v).0 ≡ true
unfolding after_verdict
after_verdict-responds ctx (allowed, ps) = ground arith
after_verdict-responds ctx (denied resp, ps) = ground arith

-- A base mount without foreign submounts is unmounted: nothing is dereferenced in vain.
process_umount-responds :
    (ctx : SyscallCtx) (mi : MountInfoParser) (request : MountPayload)
    → ((e : Event) → ctx.nsenter e ≢ send_failed)
    → IsIndexed mi
    → is_sysboxfs_base_mount mi request.target ≡ true
    → is_response (process_umount ctx mi request) ≡ true
unfolding process_umount
process_umount-responds ctx mi request reach ix base =
    let (payload, e) = create_umount_payload-defined mi request ix base in
    ground (arith, after_event-responds ctx (umount_event ctx payload) reach)

umount_target-responds :
    (ctx : SyscallCtx) (ps : Parsers) (request : MountPayload)
    → ((e : Event) → ctx.nsenter e ≢ send_failed)
    → IsIndexed ps.process
    → is_response (umount_target ctx ps request).0 ≡ true
unfolding umount_target
umount_target-responds ctx ps request reach ix = ground (
  arith,
  process_umount-responds ctx ps.process request reach ix,
  submounts_defined ps.process request.target,
  after_verdict-responds ctx (umount_allowed ctx ps request.target),
)

-- Whenever the nsenter agent can be reached, and the maps of the process' mountinfo parser are in
-- step with its mounts, an unmount request ends with a response exactly if the container has a
-- mountinfo parser or gets one, and the process gets one; and it never ends with a nil dereference,
-- so that it otherwise ends with a Go error.
pub umount_process-responds :
    (ctx : SyscallCtx) (container_info new_container_info process_info : Option MountInfoParser)
    (request : MountPayload)
    → ((e : Event) → ctx.nsenter e ≢ send_failed)
    → ((mi : MountInfoParser) → process_info ≡ some mi → IsIndexed mi)
    → let out = (umount_process ctx container_info new_container_info process_info request).0 in
      (is_response out
        ≡ ((is_there container_info || is_there new_container_info) && is_there process_info))
      × (out ≢ crashed)
unfolding umount_process
umount_process-responds ctx none none process_info request reach ix = (refl, λ e. ground arith)
umount_process-responds ctx none (some cmi) none request reach ix = (refl, λ e. ground arith)
umount_process-responds ctx none (some cmi) (some pmi) request reach ix =
    let h =
      umount_target-responds ctx (record { container = cmi; process = pmi })
        (record request { target = target_adjust ctx.root request.target }) reach (ix pmi refl) in
    (h, responds-not_crashed _ h)
umount_process-responds ctx (some cmi) new none request reach ix = (refl, λ e. ground arith)
umount_process-responds ctx (some cmi) new (some pmi) request reach ix =
    let h =
      umount_target-responds ctx (record { container = cmi; process = pmi })
        (record request { target = target_adjust ctx.root request.target }) reach (ix pmi refl) in
    (h, responds-not_crashed _ h)
