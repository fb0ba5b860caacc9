-- ===== src/Handler/PassThrough.antt =====
-- The handler that passes accesses on to the container (handler/implementations/passThrough.go). The
-- nsenter agent, which runs in the container's namespaces, is a parameter. Offsets are not negative.
pub mod Laws
use sysbox_fs.Prelude.{
  ℕ, zero, suc, String, Bool, true, false, ◌&&◌, ◌||◌, not, Option, none, some, ◌==◌, nat_eq,
  length, Result, ok, err, if◌then◌else◌,
}
use sysbox_fs.Text.{has_prefix}
use sysbox_fs.Prelude.Int.{pos}
use sysbox_fs.Prelude.Bytes.{Bytes}
use sysbox_fs.State.Data.{
  DataStore, DataError, invalid_offset, eof, ReadResult, done, slice_panic, get_data, set_data,
}
use sysbox_fs.Handler.Store.{Served, served, refused, panicked}

-- The namespaces that the agent joins: all, or all but the user namespace.
pub data JoinedNss : Type 0 where
  all_nss all_nss_but_user : JoinedNss

-- What the agent mounts first, in a mount namespace of its own.
pub record Remount : Type 0 where
  pub mount_sysfs : Bool
  pub mount_procfs : Bool
  pub clone_flags : ℕ

abbrev pub clone_newns : ℕ
clone_newns = 131072

unfoldable pub check_proc_and_sys_remount : String → Remount
unfolding has_prefix
check_proc_and_sys_remount path = record {
  mount_sysfs = has_prefix path "/sys/";
  mount_procfs = has_prefix path "/proc/";
  clone_flags = if has_prefix path "/sys/" || has_prefix path "/proc/" then clone_newns else 0;
}

-- What an event to the agent names: a file, the namespaces, the mounts.
pub record FileEvent : Type 0 where
  pub path : String
  pub namespaces : JoinedNss
  pub remount : Remount

pub record NodeInfo : Type 0 where
  pub name : String
  pub mode : ℕ
  pub size : ℕ

-- The agent on the container's files, whose state is of type G. An error is that of sending the event
-- or that of the response.
pub record FileAgent (G : Type 0) : Type 0 where
  pub lookup_node : G → FileEvent → Result ℕ NodeInfo
  pub open_file : G → FileEvent → ℕ → ℕ → Result ℕ Bool
  pub read_file : G → FileEvent → ℕ → ℕ → Result ℕ Bytes
  pub write_file : G → FileEvent → ℕ → Bytes → Result ℕ G

abbrev pub event_at : String → JoinedNss → FileEvent
event_at path nss = record {
  path = path;
  namespaces = nss;
  remount = check_proc_and_sys_remount path;
}

abbrev pub einval : ℕ
einval = 22

module _ {G : Type 0} (agent : FileAgent G) where
  -- A size of 0 becomes 32 KiB.
  unfoldable pub lookup_through : G → String → Result ℕ NodeInfo
  lookup_through g path = elim (agent.lookup_node g (event_at path all_nss)) [
    | err e ↦ err e
    | ok info ↦ if info.size == 0 then ok (record info { size = 32768 }) else ok info
  ]

  -- The Boolean tells that FUSE should not use direct I/O.
  unfoldable pub open_with_ns : JoinedNss → G → String → ℕ → ℕ → Result ℕ Bool
  open_with_ns nss g path flags mode = elim (agent.open_file g (event_at path nss) flags mode) [
    | err e ↦ err e
    | ok opened ↦ ok false
  ]

  fetch_file : JoinedNss → G → String → ℕ → Bytes → Result ℕ Bytes
  fetch_file nss g path offset buffer = agent.read_file g (event_at path nss) offset (length buffer)

  push_file : JoinedNss → G → String → ℕ → Bytes → Result ℕ (ℕ × G)
  push_file nss g path offset content =
      elim (agent.write_file g (event_at path nss) offset content) [
        | err e ↦ err e
        | ok g' ↦ ok (length content, g')
      ]

  fetched : Result ℕ Bytes → Served
  fetched (err e) = refused
  fetched (ok bytes) = served (length bytes) bytes

  keep_fetched : Bool → DataStore → String → ℕ → Result ℕ Bytes → Served × DataStore
  keep_fetched no_cache store path offset (err e) = (refused, store)
  keep_fetched no_cache store path offset (ok bytes) =
      if length bytes == 0 || no_cache
      then (served (length bytes) bytes, store)
      else elim (set_data store path (pos offset) bytes) [
        | err e ↦ (refused, store)
        | ok store' ↦ (served (length bytes) bytes, store')
      ]

  -- `same_ns` tells whether the reader has the namespaces of the container's first process.
  unfoldable pub read_with_ns :
      JoinedNss → Bool → Bool → G → DataStore → String → ℕ → Bytes → Served × DataStore
  unfolding fetch_file fetched keep_fetched
  read_with_ns nss same_ns no_cache g store path offset buffer =
      if not same_ns
      then (fetched (fetch_file nss g path offset buffer), store)
      else elim (get_data store path (pos offset) buffer) [
        | slice_panic ↦ (panicked, store)
        | done sz read (some invalid_offset) ↦ (refused, store)
        | done sz read none ↦ (served sz read, store)
        | done sz read (some eof) ↦
            if offset == 0 && sz == 0
            then keep_fetched no_cache store path offset (fetch_file nss g path offset read)
            else (served sz read, store)
      ]

  keep_pushed : Bool → DataStore → String → ℕ → Bytes → ℕ → Result ℕ ℕ × DataStore
  keep_pushed false store path offset content n = (ok n, store)
  keep_pushed true store path offset content n = elim (set_data store path (pos offset) content) [
    | err e ↦ (err einval, store)
    | ok store' ↦ (ok n, store')
  ]

  unfoldable pub write_with_ns :
      JoinedNss → Bool → Bool → G → DataStore → String → ℕ → Bytes → (Result ℕ ℕ × DataStore) × G
  unfolding push_file keep_pushed
  write_with_ns nss same_ns no_cache g store path offset content =
      elim (push_file nss g path offset content) [
        | err e ↦ ((err e, store), g)
        | ok (n, g') ↦ (keep_pushed (same_ns && not no_cache) store path offset content n, g')
      ]
