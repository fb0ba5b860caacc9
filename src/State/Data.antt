-- ===== src/State/Data.antt =====
-- The data store of a container (Data and SetData of state/container.go). A nil map and an empty one
-- answer alike. An offset is an int64; a sum of an offset and a length does not reach 2^63.
pub mod Laws
use sysbox_fs.Prelude.{
  ℕ, ◌+◌, String, Bool, true, false, Option, none, some, List, [], ◌∷◌, ◌++◌, ◌==◌, nat_eq,
  string_eq, ltb, leb, length, take, drop, not, Result, ok, err, if◌then◌else◌,
}
use sysbox_fs.Prelude.Maps.{Map, lookup, insert}
use sysbox_fs.Prelude.Int.{ℤ, pos, negsuc}

abbrev pub DataStore : Type 0
DataStore = Map String (List ℕ)

pub data DataError : Type 0 where
  invalid_offset eof : DataError

-- The length that Data returns, the buffer that it leaves and its error; or the panic of a slice
-- whose start lies behind its end.
pub data ReadResult : Type 0 where
  done : ℕ → List ℕ → Option DataError → ReadResult
  slice_panic : ReadResult

-- `currData[offset:]`, at the end of the data.
read_tail : List ℕ → ℕ → ReadResult
read_tail curr offset =
    if ltb (length curr) offset
    then slice_panic
    else done (length (drop offset curr)) (drop offset curr) (some eof)

read_cached : List ℕ → ℕ → List ℕ → ReadResult
unfolding read_tail
read_cached curr offset buffer =
    let read_len = length buffer in
    if leb read_len offset
    then done 0 buffer (some eof)
    else if leb (length curr) (offset + read_len)
    then read_tail curr offset
    else done read_len (take read_len (drop offset curr)) none

unfoldable pub get_data : DataStore → String → ℤ → List ℕ → ReadResult
unfolding read_cached lookup
get_data store name (negsuc n) buffer = done 0 buffer (some invalid_offset)
get_data store name (pos offset) buffer = elim (lookup name store) [
  | none ↦ done 0 buffer (some eof)
  | some curr ↦ read_cached curr offset buffer
]

unfoldable pub set_data : DataStore → String → ℤ → List ℕ → Result DataError DataStore
unfolding lookup insert
set_data store name (negsuc n) bytes = err invalid_offset
set_data store name (pos offset) bytes = elim (lookup name store) [
  | none ↦ if not (offset == 0) then err invalid_offset else ok (insert name bytes store)
  | some curr ↦
      if ltb (length curr) offset
      then err invalid_offset
      else ok (insert name (take offset curr ++ bytes) store)
]

after_write :
    Result DataError DataStore
    → (DataStore → Result DataError DataStore)
    → Result DataError DataStore
after_write (err e) next = err e
after_write (ok store) next = next store

-- A caller's writes of `chunks`, one behind the other.
pub write_chunks : DataStore → String → ℕ → List (List ℕ) → Result DataError DataStore
unfolding after_write
write_chunks store name offset [] = ok store
write_chunks store name offset (chunk ∷ chunks) =
    after_write (set_data store name (pos offset) chunk)
      (λ store'. write_chunks store' name (offset + length chunk) chunks)
