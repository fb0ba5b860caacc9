-- ===== src/Seccomp/Mount/Laws.antt =====
-- What the mount handler answers and sends.
use sysbox_fs.Prelude.{
  ◌&&◌, ◌||◌, not, ℕ, String, ◌≡◌, ◌≢◌, refl, true, false, Option, none, some, List, [], ◌∷◌,
  string_eq, arith, ◌⊎◌, inl, inr, Bool-cases, Option-cases, eq_iff, Option-cases,
}
use sysbox_fs.Prelude.Maps.{has_key}
use sysbox_fs.Mount.Flags.{
  is_new_mount, has_mod_flag, is_move, is_remount, is_bind, has_propagation_flag, has_flag,
  set_flag, ms_rdonly, ms_bind,
}
use sysbox_fs.Mount.Flags.Laws.{rdonly-set}
use sysbox_fs.Mount.Info.{MountInfo, MountInfoParser, get_info}
use sysbox_fs.Mount.Query.{is_sysboxfs_base_mount, is_sysboxfs_submount}
use sysbox_fs.Mount.Info.Indexed.{IsIndexed}
use sysbox_fs.Mount.Query.Laws.{submounts_defined}
use sysbox_fs.Mount.Clone.{Parsers}
use sysbox_fs.Seccomp.Context.{
  all_nss_but_user, Reply, error_reply, response, after_reply, SyscallCtx, respond, is_response,
  send_failed, Event, MountPayload, after_event, create_error_response, create_success_response,
  einval, crashed, target_adjust,
}
use sysbox_fs.Seccomp.Context.Laws.{after_event-responds, is_there, responds-not_crashed}
use sysbox_fs.Seccomp.Umount.{umount_target}
use sysbox_fs.Seccomp.Umount.Payload.{AllKnown, or_none, submounts-AllKnown}
use sysbox_fs.Seccomp.Mount.{
  process_sys_mount, process_overlay_mount, process_nfs_mount, create_sys_payload,
  create_overlay_payload, remount_all, rebind_all, create_bind_mount_payload, process_remount,
  process_bind_mount, proceed, root_event, chown_event, append_request, remount_elements,
  create_remount_payload, after_proc_mount, mount_change, mount_bind, inherit_ro, inherited,
  create_proc_payload, mount_event, process_proc_mount, mount_target, mount_process, needs_parser,
}

after_proc_mount-ro :
    (ctx : SyscallCtx) (request : MountPayload) (reply : Reply)
    → has_flag ms_rdonly request.flags ≡ true
    → after_proc_mount ctx request reply ≡ after_reply ctx reply
unfolding after_proc_mount after_reply
after_proc_mount-ro ctx request send_failed ro = refl
after_proc_mount-ro ctx request (error_reply code) ro = refl
after_proc_mount-ro ctx request response ro = rw ro

inherited-ro :
    (mi : MountInfoParser) (base : String) (request : MountPayload) (info : MountInfo)
    → get_info mi base ≡ some info
    → has_key "ro" info.vfs_options ≡ true
    → inherited mi base request ≡ record request { flags = set_flag ms_rdonly request.flags }
unfolding inherited
inherited-ro mi base request info e ro = rw (e, inherit_ro) (rw ro)

-- Where the container's /proc is read-only at the super block, a new procfs is mounted read-only, and
-- since the request is the same object the handler then leaves its owner alone: one event is all.
process_proc_mount-ro :
    (ctx : SyscallCtx) (mi : MountInfoParser) (request : MountPayload) (info : MountInfo)
    → get_info mi "/proc" ≡ some info
    → has_key "ro" info.vfs_options ≡ true
    → process_proc_mount ctx mi request
      ≡ after_event ctx (
          mount_event ctx (
            create_proc_payload ctx mi
              (record request { flags = set_flag ms_rdonly request.flags })))
unfolding process_proc_mount after_event
process_proc_mount-ro ctx mi request info e ro = rw (inherited-ro mi "/proc" request info e ro) (
    after_proc_mount-ro ctx (record request { flags = set_flag ms_rdonly request.flags }) _
      (rdonly-set request.flags))

-- Binding a submount to itself is answered with success and leaves it as it is, but its unmount is
-- refused with EINVAL.
pub bind_self-then_umount :
    (ctx : SyscallCtx) (ps : Parsers) (request : MountPayload)
    → request.flags ≡ ms_bind
    → request.source ≡ request.target
    → is_sysboxfs_submount ps.process request.target ≡ true
    → is_sysboxfs_base_mount ps.process request.target ≡ false
    → (mount_target ctx ps request ≡ (respond (create_success_response ctx.req_id), ps))
      × (umount_target ctx ps request
          ≡ (respond (create_error_response ctx.req_id (some einval)), ps))
unfolding mount_target mount_change mount_bind umount_target is_new_mount has_mod_flag is_move
    is_remount is_bind has_propagation_flag has_flag
bind_self-then_umount ctx ps request flags same sub base =
    (rw flags (ground (arith, eq_iff request.source request.target)), rw (base, sub))

remount_elements-known :
    (mi : MountInfoParser) (flags : ℕ) (mps : List String)
    → AllKnown mi mps
    → remount_elements mi flags mps ≢ none
unfolding remount_elements
remount_elements-known mi flags [] known = λ e. ground arith
remount_elements-known mi flags (mp ∷ mps) known =
    let rest = remount_elements-known mi flags mps known.1 in λ e. ground (arith, known.0)

append_request-known :
    (mi : MountInfoParser) (request : MountPayload) (o : Option (List String))
    → o ≢ none
    → AllKnown mi (or_none o)
    → append_request request (remount_all mi request.flags o) ≢ none
unfolding append_request remount_all
append_request-known mi request none h known = absurd (h refl)
append_request-known mi request (some mps) h known =
    let rest = remount_elements-known mi request.flags mps known in λ e. ground arith

submount-known :
    (mi : MountInfoParser) (mp : String) → is_sysboxfs_submount mi mp ≡ true → get_info mi mp ≢ none
unfolding is_sysboxfs_submount
submount-known mi mp h = λ e. ground arith

-- Where sysbox-fs carries a remount out, every submount has its entry: nothing is dereferenced in vain.
pub remount_payload_defined :
    (mi : MountInfoParser) (request : MountPayload)
    → IsIndexed mi
    → (is_sysboxfs_base_mount mi request.target ≡ true)
      ⊎ (is_sysboxfs_submount mi request.target ≡ true)
    → create_remount_payload mi request ≢ none
unfolding create_remount_payload
remount_payload_defined mi request ix (inl base) = rw base (
    append_request-known mi request _ (submounts_defined mi request.target base).0
      (submounts-AllKnown mi request.target ix))
remount_payload_defined mi request ix (inr sub) =
    elim (Bool-cases (is_sysboxfs_base_mount mi request.target)) [
      | inl base ↦ rw base (
          append_request-known mi request _ (submounts_defined mi request.target base).0
            (submounts-AllKnown mi request.target ix))
      | inr other ↦ rw other (
          remount_elements-known mi request.flags (request.target ∷ [])
            (submount-known mi request.target sub, tt))
    ]

bind_payload_defined :
    (mi : MountInfoParser) (request : MountPayload)
    → is_sysboxfs_base_mount mi request.source ≡ true
    → create_bind_mount_payload mi request ≢ none
unfolding create_bind_mount_payload rebind_all
bind_payload_defined mi request base =
    let known = (submounts_defined mi request.source base).0 in λ e. ground arith

process_remount-responds :
    (ctx : SyscallCtx) (mi : MountInfoParser) (request : MountPayload)
    → ((e : Event) → ctx.nsenter e ≢ send_failed)
    → create_remount_payload mi request ≢ none
    → is_response (process_remount ctx mi request) ≡ true
unfolding process_remount
process_remount-responds ctx mi request reach known =
    elim (Option-cases (create_remount_payload mi request)) [
      | inl e ↦ absurd (known e)
      | inr (payload, e) ↦ ground (arith, after_event-responds ctx (root_event ctx payload) reach)
    ]

mount_bind-responds :
    (ctx : SyscallCtx) (mi : MountInfoParser) (request : MountPayload)
    → ((e : Event) → ctx.nsenter e ≢ send_failed)
    → is_response (mount_bind ctx mi request) ≡ true
unfolding mount_bind process_bind_mount proceed
mount_bind-responds ctx mi request reach =
    elim (Option-cases (create_bind_mount_payload mi request)) [
      | inl e ↦ ground (arith, bind_payload_defined mi request)
      | inr (payload, e) ↦ ground (arith, after_event-responds ctx (mount_event ctx payload) reach)
    ]

after_proc_mount-responds :
    (ctx : SyscallCtx) (request : MountPayload) (reply : Reply)
    → ((e : Event) → ctx.nsenter e ≢ send_failed)
    → reply ≢ send_failed
    → is_response (after_proc_mount ctx request reply) ≡ true
unfolding after_proc_mount
after_proc_mount-responds ctx request send_failed reach h = absurd (h refl)
after_proc_mount-responds ctx request (error_reply code) reach h = ground arith
after_proc_mount-responds ctx request response reach h =
    ground (arith, after_event-responds ctx (chown_event ctx request.target) reach)

-- With both parsers at hand.
mount_target-responds :
    (ctx : SyscallCtx) (ps : Parsers) (request : MountPayload)
    → ((e : Event) → ctx.nsenter e ≢ send_failed)
    → is_remount request.flags ≡ false
    → is_response ((mount_target ctx ps request).0) ≡ true
unfolding mount_target mount_change process_proc_mount process_sys_mount process_overlay_mount
    process_nfs_mount proceed
mount_target-responds ctx ps request reach plain =
    let proc = inherited ps.process "/proc" request in
    let first = mount_event ctx (create_proc_payload ctx ps.process proc) in
    ground (
      arith,
      after_proc_mount-responds ctx proc (ctx.nsenter first) reach (reach first),
      after_event-responds ctx
          (mount_event ctx (create_sys_payload ps.process (inherited ps.process "/sys" request)))
          reach,
      after_event-responds ctx
          (record (mount_event ctx (create_overlay_payload ctx request)) {
            namespaces = all_nss_but_user;
          })
          reach,
      after_event-responds ctx (root_event ctx (request ∷ [])) reach,
      mount_bind-responds ctx ps.process request reach,
    )

-- Whenever the nsenter agent can be reached, a mount request other than a remount ends with a
-- response exactly if the container has a mountinfo parser or gets one, and the process gets one
-- where the handler makes one; and it never ends with a nil dereference, so that it otherwise ends
-- with a Go error.
pub mount_process-responds :
    (ctx : SyscallCtx) (container_info new_container_info process_info : Option MountInfoParser)
    (request : MountPayload)
    → ((e : Event) → ctx.nsenter e ≢ send_failed)
    → is_remount request.flags ≡ false
    → let out = (mount_process ctx container_info new_container_info process_info request).0 in
      (is_response out ≡ (
        (is_there container_info || is_there new_container_info)
        && (is_there process_info || not (needs_parser request.flags))))
      × (out ≢ crashed)
unfolding mount_process proceed
mount_process-responds ctx none none process_info request reach plain = (refl, λ e. ground arith)
mount_process-responds ctx none (some cmi) none request reach plain =
    (ground arith, λ e. ground arith)
mount_process-responds ctx none (some cmi) (some pmi) request reach plain =
    let h =
      mount_target-responds ctx (record { container = cmi; process = pmi })
        (record request { target = target_adjust ctx.root request.target }) reach plain in
    (h, responds-not_crashed _ h)
mount_process-responds ctx (some cmi) new none request reach plain =
    (ground arith, λ e. ground arith)
mount_process-responds ctx (some cmi) new (some pmi) request reach plain =
    let h =
      mount_target-responds ctx (record { container = cmi; process = pmi })
        (record request { target = target_adjust ctx.root request.target }) reach plain in
    (h, responds-not_crashed _ h)
