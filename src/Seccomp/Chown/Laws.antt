-- ===== src/Seccomp/Chown/Laws.antt =====
-- Which chowns are ignored.
use sysbox_fs.Prelude.{
  ℕ, String, ◌≡◌, ◌⊎◌, inl, inr, refl, subst, Bool, true, Option, none, some, ◌==◌, string_eq,
  nat_eq, arith, Bool-cases, Option-cases,
}
use sysbox_fs.Prelude.Int.{ℤ, int_eq}
use sysbox_fs.Mount.Info.{MountInfo, MountInfoParser, get_info}
use sysbox_fs.Seccomp.Context.{
  SysResponse, create_success_response, create_continue_response, create_error_response, eacces,
}
use sysbox_fs.Seccomp.Chown.{
  ChownOps, ignore_chown, is_sysfs, chown_response, chown_at, from_cwd, process_chown,
  process_fchown, process_fchownat, fchownat_path, fchownat_at, fchown_found, fchownat_found,
}

-- The mountinfo of the process has a sysfs at /sys.
abbrev pub HasSysfs : ChownOps → Type 0
HasSysfs ops =
    (mip : MountInfoParser) × (info : MountInfo) × (ops.mount_info ≡ some mip)
    × (get_info mip "/sys" ≡ some info)
    × (info.fs_type ≡ "sysfs")

-- A response that leaves the call to the kernel, one of EACCES, or one of success where /sys is a
-- sysfs.
abbrev pub Answers : ChownOps → ℕ → SysResponse → Type 0
Answers ops req_id resp =
    (resp ≡ create_continue_response req_id)
    ⊎ ((resp ≡ create_error_response req_id (some eacces))
        ⊎ ((resp ≡ create_success_response req_id) × HasSysfs ops))

ignore_chown-HasSysfs :
    (ops : ChownOps) (path : String) → ignore_chown ops path ≡ true → HasSysfs ops
unfolding ignore_chown is_sysfs
ignore_chown-HasSysfs ops path h = elim (Bool-cases (path == "/sys")) [
  | inr other ↦ absurd (ground arith)
  | inl sys ↦
      let at : path ≡ "/sys" = (string_eq.equal_iff path "/sys").0 sys in
      elim (Option-cases ops.mount_info) [
        | inl failed ↦ absurd (ground arith)
        | inr (mip, m) ↦ elim (Option-cases (get_info mip path)) [
          | inl missing ↦ absurd (ground arith)
          | inr (info, i) ↦
              let sysfs : (info.fs_type == "sysfs") ≡ true = ground arith in
              (
                mip,
                info,
                m,
                subst (λ p. get_info mip p ≡ some info) at i,
                (string_eq.equal_iff info.fs_type "sysfs").0 sysfs,
              )
        ]
      ]
]

chown_response-Answers :
    (ops : ChownOps) (req_id : ℕ) (path : String)
    → Answers ops req_id (chown_response ops req_id path)
unfolding chown_response
chown_response-Answers ops req_id path = elim (Bool-cases (ignore_chown ops path)) [
  | inl e ↦ inr (inr (rw e refl, ignore_chown-HasSysfs ops path e))
  | inr e ↦ inl (rw e refl)
]

chown_at-Answers :
    (ops : ChownOps) (req_id : ℕ) (path : Option String)
    → Answers ops req_id (chown_at ops req_id path)
unfolding chown_at
chown_at-Answers ops req_id none = inr (inl refl)
chown_at-Answers ops req_id (some path) = chown_response-Answers ops req_id (from_cwd ops path)

fchownat_at-Answers :
    (ops : ChownOps) (req_id : ℕ) (path : Option String)
    → Answers ops req_id (fchownat_at ops req_id path)
unfolding fchownat_at
fchownat_at-Answers ops req_id none = inr (inl refl)
fchownat_at-Answers ops req_id (some path) = chown_response-Answers ops req_id path

fchown_found-Answers :
    (ops : ChownOps) (req_id : ℕ) (path : Option String)
    → Answers ops req_id (fchown_found ops req_id path)
unfolding fchown_found
fchown_found-Answers ops req_id none = inl refl
fchown_found-Answers ops req_id (some path) =
    chown_at-Answers ops req_id (ops.resolve_proc_self path)

fchownat_found-Answers :
    (ops : ChownOps) (req_id : ℕ) (path : Option String)
    → Answers ops req_id (fchownat_found ops req_id path)
unfolding fchownat_found
fchownat_found-Answers ops req_id none = inl refl
fchownat_found-Answers ops req_id (some path) =
    fchownat_at-Answers ops req_id (ops.resolve_proc_self path)

-- The handlers of chown, fchown and fchownat leave the call to the kernel, refuse it with EACCES, or
-- answer with success without an action; the last only if the process has a sysfs mounted at /sys.
pub chown_handlers-Answers :
    (ops : ChownOps) (req_id : ℕ) (fd : ℤ) (empty_path : Bool) (path : String)
    → Answers ops req_id (process_chown ops req_id path)
      × Answers ops req_id (process_fchown ops req_id fd)
      × Answers ops req_id (process_fchownat ops req_id fd empty_path path)
unfolding process_chown process_fchown process_fchownat
chown_handlers-Answers ops req_id fd empty_path path = (
  chown_at-Answers ops req_id (ops.resolve_proc_self path),
  fchown_found-Answers ops req_id (ops.get_fd fd),
  fchownat_found-Answers ops req_id (fchownat_path ops fd empty_path path),
)
