-- ===== src/Tests/SyscallRuns.antt =====
-- The syscall handlers at work.
use sysbox_fs.Prelude.{
  ℕ, ◌≡◌, ◌≢◌, refl, ◌⊎◌, inl, true, ◌&&◌, ◌||◌, none, some, [], ◌∷◌, ◌++◌, get_elem?, map, arith,
  nat_eq, string_eq,
}
use sysbox_fs.Prelude.Maps.{lookup}
use sysbox_fs.Mount.Flags.{
  add_option, or_flag, has_flag, ms_rdonly, ms_remount, ms_bind, ms_nosuid, set_flag,
  string_to_flags, union_flags, is_remount, is_read_only_mount,
}
use mathlib.Core.List.{Memᴰ, List}
use sysbox_fs.Prelude.{subst, ap, ◌↔◌, String}
use sysbox_fs.Mount.Info.{MountInfo, MountInfoParser, add_mount, get_info}
use sysbox_fs.Mount.Info.Indexed.{IsIndexed}
use sysbox_fs.Mount.Query.{
  is_sysboxfs_base_mount, is_sysboxfs_ro_submount, is_overlap_mount, is_ro_mount,
}
use sysbox_fs.Seccomp.Context.{is_response}
use sysbox_fs.Seccomp.Context.{crashed, Event, send_failed, deny, eperm, einval}
use sysbox_fs.Seccomp.Umount.{
  umount_same_ns, umount_allowed, umount_process, is_root_mount_id, is_immutable_mount_id,
  create_umount_payload, umount_element,
}
use sysbox_fs.Seccomp.Umount.Laws.{
  umount_same_ns-immutable, umount_allowed-Grounds, umount_process-responds,
}
use sysbox_fs.Seccomp.Umount.Laws as U
use sysbox_fs.Seccomp.Umount.Payload.{create_umount_payload-base, IsListedChild}
use sysbox_fs.Seccomp.Remount.{
  remount_allowed, remount_known, remount_other_ns, remount_unshared, is_immutable_ro_mountpoint,
  is_immutable_ro_bind_mount,
}
use sysbox_fs.Seccomp.Remount.Laws.{remount_allowed-Grounds}
use sysbox_fs.Seccomp.Mount.{remount_flags, create_remount_payload, mount_process}
use sysbox_fs.Seccomp.Mount.Flags.{remount_flags_exact}
use sysbox_fs.Seccomp.Mount.Laws.{remount_payload_defined, mount_process-responds}
use sysbox_fs.Seccomp.Remount.Laws as R
use sysbox_fs.Tests.Fixtures.{
  container_mounts, process_mounts, container-IsIndexed, proc_entry, parsers, caller, request,
  uptime_entry, work_entry, volume_entry,
}

agent_reached : (ns : ℕ) (e : Event) → (caller ns).nsenter e ≢ send_failed
agent_reached ns e = λ h. ground arith

umount_same_ns-immutable_run :
    ((umount_same_ns (caller 1) parsers volume_entry).0 ≡ deny (caller 1) eperm)
    ⊎ ((umount_same_ns (caller 1) parsers volume_entry).0 ≡ deny (caller 1) einval)
unfolding is_root_mount_id is_immutable_mount_id add_mount
umount_same_ns-immutable_run =
    umount_same_ns-immutable (caller 1) parsers parsers volume_entry refl refl

container_parser-IsIndexed : (mi : MountInfoParser) → some container_mounts ≡ some mi → IsIndexed mi
container_parser-IsIndexed mi e =
    subst IsIndexed (ap (λ o. elim o [ none ↦ container_mounts | some m ↦ m ]) e)
      container-IsIndexed

umount_process-responds_example :
    let out =
      (umount_process
        (caller 1)
        (some container_mounts)
        none
        (some container_mounts)
        (request "" "/proc" "" 0)).0 in
    (is_response out ≡ true) × (out ≢ crashed)
umount_process-responds_example =
    umount_process-responds (caller 1) (some container_mounts) none (some container_mounts)
      (request "" "/proc" "" 0) (agent_reached 1) container_parser-IsIndexed

create_umount_payload-base_example :
    (mps : List String) × (create_umount_payload container_mounts (request "" "/proc" "" 2)
      ≡ some (map (umount_element 2) mps ++ request "" "/proc" "" 2 ∷ []))
    × ((mp : String)
        → Memᴰ mp mps ↔ IsListedChild container_mounts proc_entry container_mounts.mp_info mp)
unfolding add_mount get_info
create_umount_payload-base_example =
    create_umount_payload-base container_mounts (request "" "/proc" "" 2) proc_entry
      container-IsIndexed refl (inl refl) refl

remount_payload_defined_run :
    create_remount_payload container_mounts (request "" "/proc" "" ms_remount) ≢ none
unfolding is_sysboxfs_base_mount get_info add_mount
remount_payload_defined_run =
    remount_payload_defined container_mounts (request "" "/proc" "" ms_remount) container-IsIndexed
      (inl refl)

mount_process-responds_example :
    let out =
      (mount_process
        (caller 1)
        (some container_mounts)
        none
        (some process_mounts)
        (request "proc" "/inner/proc" "proc" ms_nosuid)).0 in
    (is_response out ≡ true) × (out ≢ crashed)
unfolding is_remount
mount_process-responds_example =
    mount_process-responds (caller 1) (some container_mounts) none (some process_mounts)
      (request "proc" "/inner/proc" "proc" ms_nosuid) (agent_reached 1) refl

remount_flags_exact_example :
    let new = remount_flags container_mounts ms_remount "/proc/uptime" uptime_entry in
    (has_flag ms_remount new ≡ true)
    × (has_flag ms_bind new ≡ true)
    × (has_flag ms_rdonly new ≡ (
        has_flag ms_rdonly ms_remount
        || is_sysboxfs_ro_submount container_mounts "/proc/uptime"
          && has_flag ms_rdonly (
              union_flags
                (string_to_flags uptime_entry.options)
                (string_to_flags uptime_entry.vfs_options))))
remount_flags_exact_example =
    remount_flags_exact container_mounts ms_remount "/proc/uptime" uptime_entry

umount_allowed-Grounds_example :
    (r : ℕ) × (info : MountInfo) × (lookup "/work" process_mounts.mp_info ≡ some r)
    × (get_elem? process_mounts.heap r ≡ some info)
    × U.Grounds (caller 2) parsers r info
unfolding umount_allowed add_mount
umount_allowed-Grounds_example = umount_allowed-Grounds (caller 2) parsers "/work" refl refl

remount_allowed-Grounds_example : R.Grounds (caller 2) parsers 4 work_entry
unfolding remount_allowed is_read_only_mount add_mount is_ro_mount lookup add_option or_flag
    string_to_flags set_flag has_flag remount_known remount_other_ns remount_unshared
    is_overlap_mount is_immutable_ro_mountpoint is_immutable_ro_bind_mount
remount_allowed-Grounds_example =
    remount_allowed-Grounds (caller 2) parsers (request "" "/work" "" ms_remount) 4 work_entry refl
      refl refl refl refl refl refl refl
