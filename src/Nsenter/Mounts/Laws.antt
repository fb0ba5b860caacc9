-- ===== src/Nsenter/Mounts/Laws.antt =====
-- A list of mounts as one transaction.
use sysbox_fs.Prelude.{
  ℕ, ◌≡◌, refl, Bool, true, false, not, inl, inr, Option, none, some, List, [], ◌∷◌, any, ◌==◌,
  string_eq, Result, ok, err, arith, Bool-cases, Option-cases, Result-cases, if◌then◌else◌,
}
use sysbox_fs.Mount.Flags.{has_flag, ms_remount}
use sysbox_fs.Seccomp.Context.{MountPayload}
use sysbox_fs.Nsenter.Mounts.{
  Kernel, AgentReply, done, failed_with, try_unmount, roll_back, perform_mounts,
  process_mount_syscall_request,
}

module _ {S : Type 0} (kernel : Kernel S) where
  -- All mounts in their order, or the first error.
  abbrev pub mount_all : List MountPayload → S → Result ℕ S
  mount_all [] s = ok s
  mount_all (p ∷ ps) s = elim (kernel.mount s p) [ err e ↦ err e | ok s' ↦ mount_all ps s' ]

  abbrev pub unless_refused : Option ℕ → S → AgentReply × S → AgentReply × S
  unless_refused none s r = r
  unless_refused (some e) s r = (failed_with e, s)

  abbrev pub or_rolled_back : S → Result ℕ S → AgentReply × S
  or_rolled_back s0 (err e) = (failed_with e, s0)
  or_rolled_back s0 (ok s') = (done, s')

  -- The specification: all of the request, or nothing.
  abbrev pub transaction : List MountPayload → S → AgentReply × S
  transaction ps s = or_rolled_back s (mount_all ps s)

  -- The kernel takes back the mounts of a kind, none of which is a remount, by an unmount of their
  -- target.
  module _ (creates : MountPayload → Bool)
      (no_remount : (q : MountPayload) → creates q ≡ true → has_flag ms_remount q.flags ≡ false)
      (undoes : (q : MountPayload) (s s' : S)
        → creates q ≡ true
        → kernel.mount s q ≡ ok s'
        → kernel.unmount s' q.target 0 ≡ ok s) where
    perform_mounts-transaction :
        (made ps : List MountPayload) (s0 s : S)
        → any (λ q. not (creates q)) ps ≡ false
        → roll_back kernel made s ≡ s0
        → perform_mounts kernel made ps s ≡ or_rolled_back s0 (mount_all ps s)
    unfolding perform_mounts roll_back try_unmount
    perform_mounts-transaction made [] s0 s all h = refl
    perform_mounts-transaction made (p ∷ ps) s0 s all h =
        let created : creates p ≡ true = ground arith in
        elim (Result-cases (kernel.mount s p)) [
          | inr (e, failed) ↦ ground arith
          | inl (s', e) ↦
              let back : roll_back kernel (p ∷ made) s' ≡ s0 =
                ground (arith, undoes p s s' created e, no_remount p created) in
              ground (arith, perform_mounts-transaction (p ∷ made) ps s0 s' (ground arith) back)
        ]

    -- A mount request of some elements of a kind of mounts that are no remounts, and that the kernel
    -- takes back by an unmount of their target, refines a transaction: all its mounts are made, or
    -- none is and the error is the first one; for an overlay in front it fails and changes nothing if
    -- the agent cannot take on the attributes of the process.
    pub process_mount_syscall_request-transaction :
        (personality : Option ℕ) (p : MountPayload) (ps : List MountPayload) (s : S)
        → any (λ q. not (creates q)) (p ∷ ps) ≡ false
        → process_mount_syscall_request kernel personality (p ∷ ps) s
          ≡ unless_refused
              (if p.fs_type == "overlay" then personality else none)
              s
              (transaction (p ∷ ps) s)
    unfolding process_mount_syscall_request roll_back
    process_mount_syscall_request-transaction personality p ps s all =
        let whole = perform_mounts-transaction [] (p ∷ ps) s s all refl in
        elim (Bool-cases (p.fs_type == "overlay")) [
          | inr other ↦ rw other whole
          | inl overlay ↦ elim (Option-cases personality) [
            | inr (e, refused) ↦ ground arith
            | inl fine ↦ rw (overlay, fine) whole
          ]
        ]
