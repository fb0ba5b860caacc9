-- ===== src/Seccomp/Remount/Laws.antt =====
-- Which remounts go ahead.
use sysbox_fs.Prelude.{
  ℕ, ◌≡◌, ap, refl, true, false, some, ◌==◌, nat_eq, string_eq, arith, inl, inr, get_elem?, ok,
  Bool-cases, Option-cases, Result-cases,
}
use sysbox_fs.Prelude.Maps.{lookup}
use sysbox_fs.Mount.Flags.{is_read_only_mount}
use sysbox_fs.Mount.Info.{MountInfo}
use sysbox_fs.Mount.Query.{is_overlap_mount, is_ro_mount}
use sysbox_fs.Mount.Clone.{Parsers, in_process, is_clone_mount, extract_inode}
use sysbox_fs.Seccomp.Context.{SyscallCtx, allowed, deny, eperm, MountPayload}
use sysbox_fs.Seccomp.Umount.{
  same_namespace, same_root, with_root_inode, is_immutable_overlap_mountpoint, reject_immutable,
}
use sysbox_fs.Seccomp.Umount.Laws.{on_query-allowed}
use sysbox_fs.Seccomp.Remount.{
  is_immutable_ro_mount_id, is_immutable_ro_mountpoint, is_immutable_ro_bind_mount, remount_same_ns,
  remount_unshared, remount_pivoted, unless_ro_bind, remount_other_ns, remount_known,
  remount_allowed,
}

-- Why the read-only mount `info`, the object at `r` of the process' parser, may become writable. By
-- the scenario: the container's own mount namespace; another one with the container's root; one
-- after a pivot-root.
pub data Grounds (ctx : SyscallCtx) (ps : Parsers) (r : ℕ) (info : MountInfo) : Type 0 where
  unlisted_id :
      same_namespace ctx ≡ true
      → is_immutable_ro_mount_id ps info.mount_id ≡ false
      → is_immutable_ro_bind_mount ps info ≡ false
      → Grounds ctx ps r info
  unlisted_path :
      same_namespace ctx ≡ false
      → same_root ctx ps ≡ true
      → is_immutable_ro_mountpoint ps info.mount_point ≡ false
      → is_immutable_ro_bind_mount ps info ≡ false
      → Grounds ctx ps r info
  stacked :
      same_namespace ctx ≡ false
      → same_root ctx ps ≡ true
      → is_overlap_mount (with_root_inode ctx ps).process info ≡ true
      → is_immutable_overlap_mountpoint ps info.mount_point ≡ false
      → Grounds ctx ps r info
  no_ro_clone :
      same_namespace ctx ≡ false
      → same_root ctx ps ≡ false
      → (is_clone_mount ctx.depth ctx.inodes true (with_root_inode ctx ps) (in_process, r)).0
        ≡ ok false
      → is_immutable_ro_bind_mount
          (is_clone_mount ctx.depth ctx.inodes true (with_root_inode ctx ps) (in_process, r)).1
          info
        ≡ false
      → Grounds ctx ps r info

module _ (ctx : SyscallCtx) (ps : Parsers) (r : ℕ) (info : MountInfo) where
  same_ns-Grounds :
      same_namespace ctx ≡ true → (remount_same_ns ctx ps info).0 ≡ allowed → Grounds ctx ps r info
  unfolding remount_same_ns reject_immutable
  same_ns-Grounds same h = unlisted_id same (ground arith) (ground arith)

  not-ro_bind :
      (ps' : Parsers)
      → (unless_ro_bind ctx info ps').0 ≡ allowed
      → is_immutable_ro_bind_mount ps' info ≡ false
  unfolding unless_ro_bind
  not-ro_bind ps' h = ground arith

  module _ (other : same_namespace ctx ≡ false) where
    unshared-Grounds :
        (ps' : Parsers)
        → with_root_inode ctx ps ≡ ps'
        → ps'.container ≡ ps.container
        → same_root ctx ps ≡ true
        → remount_unshared ctx ps' info ≡ allowed
        → Grounds ctx ps r info
    unfolding remount_unshared is_immutable_ro_mountpoint is_immutable_overlap_mountpoint
        is_immutable_ro_bind_mount
    unshared-Grounds ps' now cntr same h = elim (Bool-cases (is_overlap_mount ps'.process info)) [
      | inl over ↦ stacked other same (rw now over) (ground arith)
      | inr plain ↦ unlisted_path other same (ground arith) (ground arith)
    ]

    pivoted-Grounds :
        same_root ctx ps ≡ false
        → (remount_pivoted ctx (with_root_inode ctx ps) (in_process, r) info).0 ≡ allowed
        → Grounds ctx ps r info
    unfolding remount_pivoted
    pivoted-Grounds moved h =
        let query =
          is_clone_mount ctx.depth ctx.inodes true (with_root_inode ctx ps) (in_process, r) in
        elim (on_query-allowed ctx query (deny ctx eperm) (unless_ro_bind ctx info) h) [
          | inl (_, bad) ↦ absurd (ground arith)
          | inr (q, rest) ↦ no_ro_clone other moved (ap (λ x. x.0) q) (not-ro_bind query.1 rest)
        ]

    other_ns-Grounds :
        (remount_other_ns ctx ps (in_process, r) info).0 ≡ allowed → Grounds ctx ps r info
    unfolding remount_other_ns
    other_ns-Grounds h = elim (Bool-cases (ctx.process_info.root == "/")) [
      | inl plain ↦ elim (Bool-cases (ctx.process_info.root_inode == ctx.init_proc.root_inode)) [
        | inl same ↦ unshared-Grounds ps (ground arith) refl (ground arith) (ground arith)
        | inr moved ↦ pivoted-Grounds (ground arith) (ground arith)
      ]
      | inr jailed ↦
          let mi = (extract_inode ctx.inodes ps.process "/").1 in
          let ps' : Parsers = record ps { process = mi } in
          elim (Result-cases (extract_inode ctx.inodes ps.process "/").0) [
            | inr (e, bad) ↦ absurd (ground arith)
            | inl (i, good) ↦ elim (Bool-cases (i == ctx.init_proc.root_inode)) [
              | inl same ↦ unshared-Grounds ps' (ground arith) refl (ground arith) (ground arith)
              | inr moved ↦ pivoted-Grounds (ground arith) (ground arith)
            ]
          ]
    ]

  known-Grounds : (remount_known ctx ps r info).0 ≡ allowed → Grounds ctx ps r info
  unfolding remount_known
  known-Grounds h = elim (Option-cases ctx.process_info.mount_ns) [
    | inl no_ns ↦ absurd (ground arith)
    | inr (n, ns) ↦ elim (Option-cases ctx.init_proc.mount_ns) [
      | inl no_init ↦ absurd (ground arith)
      | inr (k, init) ↦ elim (Bool-cases (n == k)) [
        | inl same ↦ same_ns-Grounds (ground arith) (ground arith)
        | inr other ↦ other_ns-Grounds (ground arith) (ground arith)
      ]
    ]
  ]

-- Unless immutable remounts are allowed by configuration, a remount without MS_RDONLY of a read-only
-- mount with an entry in the process' mountinfo, of a file system type other than "proc" and "sysfs",
-- goes ahead only on one of the grounds above.
pub remount_allowed-Grounds :
    (ctx : SyscallCtx) (ps : Parsers) (request : MountPayload) (r : ℕ) (info : MountInfo)
    → ctx.allow_immutable_remounts ≡ false
    → (request.fs_type == "proc") ≡ false
    → (request.fs_type == "sysfs") ≡ false
    → is_read_only_mount request.flags ≡ false
    → lookup request.target ps.process.mp_info ≡ some r
    → get_elem? ps.process.heap r ≡ some info
    → is_ro_mount info ≡ true
    → (remount_allowed ctx ps request).0 ≡ allowed
    → Grounds ctx ps r info
unfolding remount_allowed
remount_allowed-Grounds ctx ps request r info off proc sysfs writable found entry ro h =
    known-Grounds ctx ps r info (ground arith)
