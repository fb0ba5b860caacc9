-- ===== src/Seccomp/Mount/Flags.antt =====
-- The flags that a remount of a base mount passes to its submounts.
use sysbox_fs.Prelude.{ℕ, String, ◌≡◌, true, ◌&&◌, ◌||◌, inl, inr, Bool-cases}
use sysbox_fs.Mount.Flags.{has_flag, union_flags, string_to_flags, ms_rdonly, ms_remount, ms_bind}
use sysbox_fs.Mount.Flags.Laws.{
  rdonly-set, rdonly-clear, remount-set, bind-set, remount-set_bind, remount-set_rdonly,
  remount-clear_rdonly, bind-set_rdonly, bind-clear_rdonly, rdonly-set_remount, rdonly-set_bind,
}
use sysbox_fs.Mount.Info.{MountInfo, MountInfoParser}
use sysbox_fs.Mount.Query.{is_sysboxfs_ro_submount}
use sysbox_fs.Seccomp.Mount.{remount_flags}

ruleset flag_laws = (
  rdonly-set, rdonly-clear, remount-set, bind-set, remount-set_bind, remount-set_rdonly,
  remount-clear_rdonly, bind-set_rdonly, bind-clear_rdonly, rdonly-set_remount, rdonly-set_bind,
)

-- The flags of a submount's remount always have MS_REMOUNT and MS_BIND, and MS_RDONLY exactly if the
-- request has it, or if the container lists the submount as read-only and its options have it.
pub remount_flags_exact :
    (mi : MountInfoParser) (flags : ℕ) (subm : String) (info : MountInfo)
    → let new = remount_flags mi flags subm info in
      (has_flag ms_remount new ≡ true)
      × (has_flag ms_bind new ≡ true)
      × (has_flag ms_rdonly new ≡ (
          has_flag ms_rdonly flags
          || is_sysboxfs_ro_submount mi subm
            && has_flag ms_rdonly
                (union_flags (string_to_flags info.options) (string_to_flags info.vfs_options))))
unfolding remount_flags
remount_flags_exact mi flags subm info = elim (Bool-cases (has_flag ms_rdonly flags)) [
  | inl ro ↦ rw ro (simp flag_laws, simp flag_laws, simp flag_laws)
  | inr rw_asked ↦ elim (Bool-cases (is_sysboxfs_ro_submount mi subm)) [
    | inl listed ↦ rw (rw_asked, listed) (simp flag_laws, simp flag_laws, simp flag_laws)
    | inr free ↦ rw (rw_asked, free) (simp flag_laws, simp flag_laws, simp flag_laws)
  ]
]
