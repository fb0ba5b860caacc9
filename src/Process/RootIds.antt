-- ===== src/Process/RootIds.antt =====
-- The root user of a process' user namespace (UsernsRootUidGid of process/process.go).
use sysbox_fs.Prelude.{ℕ, ◌%◌, ◌^◌, Option, none, some, List, [], ◌∷◌, ◌==◌, nat_eq, if◌then◌else◌}

-- An entry of /proc/<pid>/uid_map or gid_map.
pub record IdMap : Type 0 where
  pub id : ℕ
  pub parent_id : ℕ

-- The first entry for ID 0, cut to a uint32.
unfoldable pub root_of_map : List IdMap → Option ℕ
root_of_map [] = none
root_of_map (m ∷ ms) = if m.id == 0 then some (m.parent_id % 2 ^ 32) else root_of_map ms

-- `none` is a map that cannot be read.
unfoldable pub find_root : Option (List IdMap) → Option ℕ
find_root none = none
find_root (some ms) = root_of_map ms

-- The overflow ID, or 65534 if it cannot be read.
abbrev pub or_nobody : Option ℕ → ℕ
or_nobody none = 65534
or_nobody (some id) = id

root_uid : Option ℕ → Option ℕ → ℕ
root_uid none overflow = or_nobody overflow
root_uid (some uid) overflow = uid

-- The end of the function: the failed read of the overflow GID leaves gid at 0 and sets uid.
root_gid : ℕ → Option ℕ → Option ℕ → ℕ × ℕ
root_gid uid (some gid) overflow = (uid, gid)
root_gid uid none (some gid) = (uid, gid)
root_gid uid none none = (65534, 0)

unfoldable pub userns_root_uid_gid :
    Option (List IdMap) → Option (List IdMap) → Option ℕ → Option ℕ → ℕ × ℕ
unfolding root_uid root_gid find_root
userns_root_uid_gid uid_map gid_map overflow_uid overflow_gid =
    root_gid (root_uid (find_root uid_map) overflow_uid) (find_root gid_map) overflow_gid
