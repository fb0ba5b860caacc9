-- ===== src/Nsenter/Remounts/Laws.antt =====
-- What the agent's own mounts leave behind.
use sysbox_fs.Prelude.{
  ◌≡◌, inl, inr, refl, String, Bool, true, false, Option, none, some, List, [], ◌∷◌, ◌++◌, any,
  ◌==◌, string_eq, Result, ok, err, arith, Bool-cases, subst, eq_iff, if◌then◌else◌,
}
use sysbox_fs.Text.{has_prefix}
use sysbox_fs.Nsenter.Remounts.{
  GoError, MkdirError, read_only, mkdir_failed, MountReplies, Action, made_dir, mounted, detached,
  removed_all, PayloadMounts, cleanup, process_payload_mounts,
}

abbrev pub is_removal_of : String → Action → Bool
is_removal_of dir (removed_all d) = d == dir
is_removal_of dir _ = false

abbrev pub is_detach_of : String → Action → Bool
is_detach_of dir (detached d) = d == dir
is_detach_of dir _ = false

-- The directories that are made and not removed later, and the mounts that are not detached.
abbrev pub left_dirs : List Action → List String
left_dirs [] = []
left_dirs (made_dir d ∷ rest) =
    if any (is_removal_of d) rest then left_dirs rest else d ∷ left_dirs rest
left_dirs (mounted d ∷ rest) = left_dirs rest
left_dirs (detached d ∷ rest) = left_dirs rest
left_dirs (removed_all d ∷ rest) = left_dirs rest

abbrev pub left_mounts : List Action → List String
left_mounts [] = []
left_mounts (mounted d ∷ rest) =
    if any (is_detach_of d) rest then left_mounts rest else d ∷ left_mounts rest
left_mounts (made_dir d ∷ rest) = left_mounts rest
left_mounts (detached d ∷ rest) = left_mounts rest
left_mounts (removed_all d ∷ rest) = left_mounts rest

-- The names that MkdirTemp makes.
abbrev pub IsTempName : String → Result MkdirError String → Type 0
IsTempName prefix (ok d) = has_prefix d prefix ≡ true
IsTempName prefix (err e) = Unit

abbrev pub sysfs_prefix : String
sysfs_prefix = "/.sysbox-sysfs-"

abbrev pub procfs_prefix : String
procfs_prefix = "/.sysbox-procfs-"

sysfs_name-ne : (d : String) → has_prefix d sysfs_prefix ≡ true → (d == "") ≡ false
unfolding has_prefix
sysfs_name-ne d h = elim (Bool-cases (d == "")) [
  | inr e ↦ e
  | inl e ↦ cc (subst (λ x. has_prefix x sysfs_prefix ≡ true) ((eq_iff d "").0 e) h)
]

procfs_name-ne : (d : String) → has_prefix d procfs_prefix ≡ true → (d == "") ≡ false
unfolding has_prefix
procfs_name-ne d h = elim (Bool-cases (d == "")) [
  | inr e ↦ e
  | inl e ↦ cc (subst (λ x. has_prefix x procfs_prefix ≡ true) ((eq_iff d "").0 e) h)
]

abbrev IsClean : List Action → Type 0
IsClean trace = (left_dirs trace ≡ []) × (left_mounts trace ≡ [])

abbrev Cleans : Result GoError PayloadMounts × List Action → Type 0
Cleans (ok pmi, actions) = IsClean (actions ++ cleanup pmi)
Cleans (err e, actions) = Unit

abbrev replies :
    Result MkdirError String
    → Option GoError
    → Result MkdirError String
    → Option GoError
    → MountReplies
replies sd sm pd pm = record {
  sysfs_dir = sd;
  sysfs_mount = sm;
  procfs_dir = pd;
  procfs_mount = pm;
}

sysfs-Cleans :
    (sd : Result MkdirError String) (sm : Option GoError) (k : MountReplies)
    → IsTempName sysfs_prefix sd
    → Cleans (process_payload_mounts true false (record k { sysfs_dir = sd; sysfs_mount = sm }))
unfolding process_payload_mounts cleanup has_prefix
sysfs-Cleans (ok d) none k t =
    (ground (arith, sysfs_name-ne d t, eq_iff d d), ground (arith, sysfs_name-ne d t, eq_iff d d))
sysfs-Cleans (err read_only) none k t = (refl, refl)
sysfs-Cleans (err (mkdir_failed e)) none k t = tt
sysfs-Cleans (ok d) (some e) k t = tt
sysfs-Cleans (err read_only) (some e) k t = tt
sysfs-Cleans (err (mkdir_failed e')) (some e) k t = tt

procfs-Cleans :
    (pd : Result MkdirError String) (pm : Option GoError) (k : MountReplies)
    → IsTempName procfs_prefix pd
    → Cleans (process_payload_mounts false true (record k { procfs_dir = pd; procfs_mount = pm }))
unfolding process_payload_mounts cleanup has_prefix
procfs-Cleans (ok d) none k t =
    (ground (arith, procfs_name-ne d t, eq_iff d d), ground (arith, procfs_name-ne d t, eq_iff d d))
procfs-Cleans (err read_only) none k t = (refl, refl)
procfs-Cleans (err (mkdir_failed e)) none k t = tt
procfs-Cleans (ok d) (some e) k t = tt
procfs-Cleans (err read_only) (some e) k t = tt
procfs-Cleans (err (mkdir_failed e')) (some e) k t = tt

both-Cleans :
    (sd pd : Result MkdirError String) (sm pm : Option GoError)
    → IsTempName sysfs_prefix sd
    → IsTempName procfs_prefix pd
    → Cleans (process_payload_mounts true true (replies sd sm pd pm))
unfolding process_payload_mounts cleanup has_prefix
both-Cleans (ok d) (ok e) none none t u = (
  ground (
    arith,
    sysfs_name-ne d t,
    procfs_name-ne e u,
    eq_iff d d,
    eq_iff e e,
    eq_iff d e,
    eq_iff e d,
  ),
  ground (
    arith,
    sysfs_name-ne d t,
    procfs_name-ne e u,
    eq_iff d d,
    eq_iff e e,
    eq_iff d e,
    eq_iff e d,
  ),
)
both-Cleans (ok d) (err read_only) none none t u =
    (ground (arith, sysfs_name-ne d t, eq_iff d d), ground (arith, sysfs_name-ne d t, eq_iff d d))
both-Cleans (err read_only) (ok e) none none t u =
    (ground (arith, procfs_name-ne e u, eq_iff e e), ground (arith, procfs_name-ne e u, eq_iff e e))
both-Cleans (err read_only) (err read_only) none none t u = (refl, refl)
both-Cleans (err (mkdir_failed e)) pd sm pm t u = tt
both-Cleans (ok d) pd (some e) pm t u = tt
both-Cleans (err read_only) pd (some e) pm t u = tt
both-Cleans (ok d) (err (mkdir_failed e)) none pm t u = tt
both-Cleans (err read_only) (err (mkdir_failed e)) none pm t u = tt
both-Cleans (ok d) (ok e) none (some f) t u = tt
both-Cleans (ok d) (err read_only) none (some f) t u = tt
both-Cleans (err read_only) (ok e) none (some f) t u = tt
both-Cleans (err read_only) (err read_only) none (some f) t u = tt

-- When the agent has mounted what a request asks for, on directories with the names that MkdirTemp
-- makes or on /dev, its clean-up removes each directory that it has made and detaches each mount.
pub process_payload_mounts-clean :
    (want_sysfs want_procfs : Bool) (k : MountReplies) (pmi : PayloadMounts) (actions : List Action)
    → IsTempName sysfs_prefix k.sysfs_dir
    → IsTempName procfs_prefix k.procfs_dir
    → process_payload_mounts want_sysfs want_procfs k ≡ (ok pmi, actions)
    → (left_dirs (actions ++ cleanup pmi) ≡ []) × (left_mounts (actions ++ cleanup pmi) ≡ [])
unfolding process_payload_mounts cleanup
process_payload_mounts-clean false false k pmi actions t u e = subst Cleans e (refl, refl)
process_payload_mounts-clean true false k pmi actions t u e =
    subst Cleans e (sysfs-Cleans k.sysfs_dir k.sysfs_mount k t)
process_payload_mounts-clean false true k pmi actions t u e =
    subst Cleans e (procfs-Cleans k.procfs_dir k.procfs_mount k u)
process_payload_mounts-clean true true k pmi actions t u e =
    subst Cleans e (both-Cleans k.sysfs_dir k.procfs_dir k.sysfs_mount k.procfs_mount t u)

-- Where the container's root is read-only and sysfs cannot be mounted on /dev, the content of /dev is
-- removed.
pub process_payload_mounts-dev :
    (want_procfs : Bool) (k : MountReplies) (e : GoError)
    → k.sysfs_dir ≡ err read_only
    → k.sysfs_mount ≡ some e
    → process_payload_mounts true want_procfs k ≡ (err e, removed_all "/dev" ∷ [])
unfolding process_payload_mounts
process_payload_mounts-dev want_procfs k e no_dir no_mount = ground arith

-- A failed mount of procfs leaves the directory that was made for it.
pub process_payload_mounts-procfs_dir :
    (k : MountReplies) (d : String) (e : GoError)
    → k.procfs_dir ≡ ok d
    → k.procfs_mount ≡ some e
    → left_dirs (process_payload_mounts false true k).1 ≡ d ∷ []
unfolding process_payload_mounts
process_payload_mounts-procfs_dir k d e made failed = ground arith
