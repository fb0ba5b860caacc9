-- ===== src/State/Data/Laws.antt =====
-- What a read returns after writes, and where it fails.
use mathlib.Core.List.{append_assoc, append-nil}
use sysbox_fs.Prelude.{
  ℕ, ◌+◌, ◌≤◌, ◌<◌, ◌≡◌, ◌↔◌, refl, ◌⊎◌, sym, ap, ◌∙◌, String, Option, none, some, List, [], ◌∷◌,
  ◌++◌, arith, ◌==◌, string_eq, ==-refl, length, take, drop, length-append, length-take,
  length-drop, take-all, ok, inl, inr, Option-cases, if◌then◌else◌,
}
use sysbox_fs.Prelude.Maps.{lookup, insert, lookup-insert}
use sysbox_fs.Prelude.Int.{pos}
use sysbox_fs.State.Data.{
  DataStore, DataError, eof, done, slice_panic, get_data, set_data, write_chunks,
}

-- A successful write replaces what stands from its offset on, and no other entry.
pub lookup-set_data :
    (store store' : DataStore) (name j : String) (offset : ℕ) (curr bytes : List ℕ)
    → lookup name store ≡ some curr
    → set_data store name (pos offset) bytes ≡ ok store'
    → lookup j store' ≡ (if name == j then some (take offset curr ++ bytes) else lookup j store)
unfolding set_data
lookup-set_data store store' name j offset curr bytes e h =
    ground (arith, lookup-insert name j (take offset curr ++ bytes) store)

-- A read at the start into a buffer longer than the entry returns the entry and io.EOF.
pub get_data-whole :
    (store : DataStore) (name : String) (curr buffer : List ℕ)
    → lookup name store ≡ some curr
    → length curr ≤ length buffer
    → 0 < length buffer
    → get_data store name (pos 0) buffer ≡ done (length curr) curr (some eof)
unfolding get_data
get_data-whole store name curr buffer e fits some_room = ground arith

-- A read panics exactly if the entry exists, the offset is within the buffer's length, and the entry
-- ends before the offset.
pub get_data-panic :
    (store : DataStore) (name : String) (offset : ℕ) (buffer : List ℕ)
    → (get_data store name (pos offset) buffer ≡ slice_panic) ↔ (
        (curr : List ℕ) × (lookup name store ≡ some curr)
        × (offset < length buffer)
        × (length curr < offset))
unfolding get_data
get_data-panic store name offset buffer = (
  λ h. elim (Option-cases (lookup name store)) [
    | inl e ↦ absurd (ground arith)
    | inr (curr, e) ↦ (curr, e, ground arith, ground arith)
  ],
  λ (curr, e, room, short). ground arith,
)

-- A read that returns a length returns that many bytes, no more than the buffer holds.
pub get_data_bounds :
    (store : DataStore) (name : String) (offset n : ℕ) (buffer out : List ℕ) (e : Option DataError)
    → get_data store name (pos offset) buffer ≡ done n out e
    → (n ≤ length buffer) × (length out ≡ n ⊎ n ≡ 0)
unfolding get_data
get_data_bounds store name offset n buffer out e h = elim (Option-cases (lookup name store)) [
  | inl missing ↦ ground arith
  | inr (curr, found) ↦
      ground (arith, length-drop offset curr, length-take (length buffer) (drop offset curr))
]

-- At an offset of the buffer's length or more a read reports the end, however long the entry is.
pub get_data-past_buffer :
    (store : DataStore) (name : String) (offset : ℕ) (buffer : List ℕ)
    → length buffer ≤ offset
    → get_data store name (pos offset) buffer ≡ done 0 buffer (some eof)
unfolding get_data
get_data-past_buffer store name offset buffer h = ground arith

-- A write inside an entry drops what stood behind it.
pub set_data-truncates :
    (store store' : DataStore) (name : String) (offset : ℕ) (curr bytes : List ℕ)
    → lookup name store ≡ some curr
    → offset ≤ length curr
    → set_data store name (pos offset) bytes ≡ ok store'
    → (new : List ℕ) × (lookup name store' ≡ some new) × (length new ≡ offset + length bytes)
set_data-truncates store store' name offset curr bytes e fits h = (
  take offset curr ++ bytes,
  ground (arith, lookup-set_data store store' name name offset curr bytes e h, ==-refl name),
  omega (arith, length-append (take offset curr) bytes, length-take offset curr),
)

abbrev pub join_all : List (List ℕ) → List ℕ
join_all [] = []
join_all (c ∷ cs) = c ++ join_all cs

set_data-append :
    (store : DataStore) (name : String) (curr bytes : List ℕ)
    → lookup name store ≡ some curr
    → set_data store name (pos (length curr)) bytes ≡ ok (insert name (curr ++ bytes) store)
unfolding set_data
set_data-append store name curr bytes e = ground (arith, take-all (length curr) curr)

write_chunks-cons :
    (store store₁ : DataStore) (name : String) (offset : ℕ) (c : List ℕ) (cs : List (List ℕ))
    → set_data store name (pos offset) c ≡ ok store₁
    → write_chunks store name offset (c ∷ cs) ≡ write_chunks store₁ name (offset + length c) cs
unfolding write_chunks
write_chunks-cons store store₁ name offset c cs e = rw (e, write_chunks) refl

lookup-insert_self :
    (store : DataStore) (name : String) (v : List ℕ) → lookup name (insert name v store) ≡ some v
lookup-insert_self store name v = ground (arith, lookup-insert name name v store, ==-refl name)

write_chunks-append :
    (store : DataStore) (name : String) (curr : List ℕ) (chunks : List (List ℕ)) (offset : ℕ)
    → lookup name store ≡ some curr
    → offset ≡ length curr
    → (store' : DataStore) × (write_chunks store name offset chunks ≡ ok store')
      × (lookup name store' ≡ some (curr ++ join_all chunks))
write_chunks-append store name curr [] offset e at_end =
    (store, unfold write_chunks in refl, e ∙ ap some (sym (append-nil curr)))
write_chunks-append store name curr (c ∷ cs) offset e at_end =
    let (store', run, found) =
      write_chunks-append (insert name (curr ++ c) store) name (curr ++ c) cs (offset + length c)
        (lookup-insert_self store name (curr ++ c)) (omega (arith, length-append curr c)) in
    (
      store',
      write_chunks-cons store (insert name (curr ++ c) store) name offset c cs
            (rw at_end (set_data-append store name curr c e))
          ∙ run,
      found ∙ ap some (append_assoc curr c (join_all cs)),
    )

set_data-new :
    (store : DataStore) (name : String) (c : List ℕ)
    → lookup name store ≡ none
    → set_data store name (pos 0) c ≡ ok (insert name c store)
unfolding set_data
set_data-new store name c e = ground (arith, e)

-- Writes of a new entry in chunks, each behind the last, all succeed, and a read of the whole entry
-- into a large enough buffer returns the chunks put together.
pub write_chunks-get_data :
    (store : DataStore) (name : String) (c : List ℕ) (cs : List (List ℕ)) (buffer : List ℕ)
    → lookup name store ≡ none
    → length (c ++ join_all cs) ≤ length buffer
    → 0 < length buffer
    → (store' : DataStore) × (write_chunks store name 0 (c ∷ cs) ≡ ok store')
      × (get_data store' name (pos 0) buffer
          ≡ done (length (c ++ join_all cs)) (c ++ join_all cs) (some eof))
write_chunks-get_data store name c cs buffer fresh fits some_room =
    let (store', run, found) =
      write_chunks-append (insert name c store) name c cs (0 + length c)
        (lookup-insert_self store name c) (omega arith) in
    (
      store',
      write_chunks-cons store (insert name c store) name 0 c cs (set_data-new store name c fresh)
          ∙ run,
      get_data-whole store' name (c ++ join_all cs) buffer found fits some_room,
    )

-- A write at the start makes its bytes the whole entry.
pub set_data-start :
    (store store' : DataStore) (name : String) (bytes : List ℕ)
    → set_data store name (pos 0) bytes ≡ ok store'
    → lookup name store' ≡ some bytes
unfolding set_data
set_data-start store store' name bytes h = elim (Option-cases (lookup name store)) [
  | inl missing ↦ ground (arith, lookup-insert name name bytes store, ==-refl name)
  | inr (curr, found) ↦ ground (arith, lookup-insert name name bytes store, ==-refl name)
]

-- A write at the start never fails.
pub set_data-start_ok :
    (store : DataStore) (name : String) (bytes : List ℕ)
    → (store' : DataStore) × (set_data store name (pos 0) bytes ≡ ok store')
unfolding set_data
set_data-start_ok store name bytes = elim (Option-cases (lookup name store)) [
  | inl missing ↦ (insert name bytes store, ground arith)
  | inr (curr, found) ↦ (insert name bytes store, ground arith)
]
