-- ===== src/Handler/Store.antt =====
-- Files of the host that the handlers emulate (handler/implementations/utils.go). The node of a file,
-- as package sysio presents it, is a parameter, and so are the other agents on the host.
pub mod Laws
use sysbox_fs.Prelude.{
  ℕ, zero, suc, ◌+◌, String, Bool, true, false, ◌&&◌, ◌||◌, not, Option, none, some, List, [], ◌∷◌,
  ◌++◌, ◌==◌, nat_eq, length, take, drop, Result, ok, err, if◌then◌else◌,
}
use sysbox_fs.Prelude.Int.{pos}
use sysbox_fs.Prelude.Bytes.{Bytes, bytes_eq}
use sysbox_fs.State.Data.{
  DataStore, DataError, invalid_offset, eof, ReadResult, done, slice_panic, get_data, set_data,
}

-- Open; ReadAt, with the bytes at an offset and whether it says io.EOF; WriteAt. `none` is another
-- error. The state of the file is of type F.
pub record Node (F : Type 0) : Type 0 where
  pub opens : F → Bool
  pub read_at : F → ℕ → ℕ → Option (Bytes × Bool)
  pub write_at : F → ℕ → Bytes → Option F

-- The resource has a mutex, Open fails, ReadAt fails, `wrCondition` fails, WriteAt fails.
pub data FsError : Type 0 where
  no_mutex open_failed read_failed condition_failed write_failed einval : FsError

module _ {F : Type 0} (node : Node F) where
  -- readFs: the number of bytes, the buffer, and io.EOF.
  unfoldable pub read_fs : Bool → F → ℕ → Bytes → Result FsError (ℕ × Bytes × Bool)
  read_fs mutex f offset buffer =
      if not mutex
      then err no_mutex
      else if not (node.opens f)
      then err open_failed
      else elim (node.read_at f (length buffer) offset) [
        | none ↦ err read_failed
        | some (bytes, at_end) ↦ ok (length bytes, bytes ++ drop (length bytes) buffer, at_end)
      ]

  -- The rounds of writeFs that are left: `size` is the size of the buffer, which each read cuts to
  -- what it has read, and `others` is what the other agents do to the file before a read.
  unfoldable pub write_rounds :
      (ℕ → F → F) → (Bytes → Bytes → Option Bool) → ℕ → Bytes → ℕ → ℕ → F → Result FsError ℕ × F
  write_rounds others condition offset content zero size f = (ok (length content), f)
  write_rounds others condition offset content (suc n) size f =
      elim (node.read_at (others n f) size offset) [
        | none ↦ (err read_failed, others n f)
        | some (curr, at_end) ↦
            if curr == content
            then (ok (length content), others n f)
            else elim (condition curr content) [
              | none ↦ (err condition_failed, others n f)
              | some false ↦ (ok (length content), others n f)
              | some true ↦ elim (node.write_at (others n f) offset content) [
                | none ↦ (err write_failed, others n f)
                | some g ↦ write_rounds others condition offset content n (length curr) g
              ]
            ]
      ]

  -- writeFs; a condition of `none` is nil.
  unfoldable pub write_fs :
      (ℕ → F → F)
      → Bool
      → Option (Bytes → Bytes → Option Bool)
      → ℕ
      → Bytes
      → F
      → Result FsError ℕ × F
  unfolding write_rounds
  write_fs others mutex none offset content f = (ok (length content), f)
  write_fs others mutex (some condition) offset content f =
      if not mutex
      then (err no_mutex, f)
      else if not (node.opens f)
      then (err open_failed, f)
      else write_rounds others condition offset content 5 65536 f

-- What a read request gets: a number of bytes and the buffer that req.Data is left as, an error, or a
-- panic.
pub data Served : Type 0 where
  served : ℕ → Bytes → Served
  refused panicked : Served

module _ {F : Type 0} (node : Node F) where
  fill_cache : DataStore → String → ℕ → Bytes → Served × DataStore
  fill_cache store path sz buffer = elim (set_data store path (pos 0) (take sz buffer)) [
    | err e ↦ (refused, store)
    | ok store' ↦ (served sz buffer, store')
  ]

  from_fs : Bool → F → DataStore → String → Bytes → Served × DataStore
  unfolding fill_cache
  from_fs mutex f store path buffer = elim (read_fs node mutex f 0 buffer) [
    | err e ↦ (refused, store)
    | ok (sz, read, at_end) ↦
        if sz == 0 && at_end then (served 0 read, store) else fill_cache store path sz read
  ]

  -- readCntrData, at an offset that is not negative.
  unfoldable pub read_cntr_data : Bool → F → DataStore → String → ℕ → Bytes → Served × DataStore
  unfolding from_fs
  read_cntr_data mutex f store path offset buffer = elim (get_data store path (pos offset) buffer) [
    | slice_panic ↦ (panicked, store)
    | done sz read (some invalid_offset) ↦ (refused, store)
    | done sz read none ↦ (served sz read, store)
    | done sz read (some eof) ↦
        if offset == 0 && sz == 0 then from_fs mutex f store path read else (served sz read, store)
  ]

  ignoring : Bool → Bytes → Result FsError ℕ → Result FsError ℕ
  ignoring ignore content r = if ignore then ok (length content) else r

  set_cache : DataStore → String → ℕ → Bytes → Result FsError ℕ → Result FsError ℕ × DataStore
  set_cache store path offset content (err e) = (err e, store)
  set_cache store path offset content (ok sz) = elim (set_data store path (pos offset) content) [
    | err e ↦ (err einval, store)
    | ok store' ↦ (ok sz, store')
  ]

  -- writeCntrData.
  unfoldable pub write_cntr_data :
      (ℕ → F → F)
      → Bool
      → Bool
      → Option (Bytes → Bytes → Option Bool)
      → F
      → DataStore
      → String
      → ℕ
      → Bytes
      → (Result FsError ℕ × DataStore) × F
  unfolding ignoring set_cache
  write_cntr_data others mutex ignore push f store path offset content =
      let (r, f') = write_fs node others mutex push offset content f in
      (set_cache store path offset content (ignoring ignore content r), f')
