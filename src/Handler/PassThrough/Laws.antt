-- ===== src/Handler/PassThrough/Laws.antt =====
-- The cache of the pass-through handler.
use sysbox_fs.Prelude.{
  ℕ, ◌<◌, ◌≤◌, ◌≡◌, inl, inr, String, Bool, true, false, some, [], ◌∷◌, ◌==◌, nat_eq, string_eq,
  length, Result, ok, err, arith, Bool-cases, Option-cases, Result-cases,
}
use sysbox_fs.Prelude.Maps.{lookup}
use sysbox_fs.Prelude.Int.{pos}
use sysbox_fs.Prelude.Bytes.{Bytes}
use sysbox_fs.State.Data.{DataStore, get_data, set_data}
use sysbox_fs.State.Data.Laws.{get_data-whole, set_data-start}
use sysbox_fs.Handler.Store.{served}
use sysbox_fs.Handler.PassThrough.{
  JoinedNss, FileAgent, event_at, read_with_ns, write_with_ns, fetch_file, keep_fetched, push_file,
}

module _ {G : Type 0} (agent : FileAgent G) (nss : JoinedNss) where
  write_with_ns-cached :
      (g g' : G) (store store' : DataStore) (path : String) (content : Bytes) (n : ℕ)
      → write_with_ns agent nss true false g store path 0 content ≡ ((ok n, store'), g')
      → lookup path store' ≡ some content
  unfolding write_with_ns
  write_with_ns-cached g g' store store' path content n e =
      elim (Result-cases (push_file agent nss g path 0 content)) [
        | inr (er, failed) ↦ absurd (ground arith)
        | inl ((m, k), pushed) ↦ elim (Result-cases (set_data store path (pos 0) content)) [
          | inr (er, failed) ↦ absurd (ground arith)
          | inl (s, set) ↦ ground (arith, set_data-start store s path content set)
        ]
      ]

  -- What a process in the container's namespaces wrote at the start of a file, with caching, is what
  -- such a process reads from the start, without the agent.
  pub write-read_with_ns :
      (g g' h : G) (store store' : DataStore) (path : String) (content buffer : Bytes) (n : ℕ)
      (no_cache : Bool)
      → 0 < length content
      → length content ≤ length buffer
      → write_with_ns agent nss true false g store path 0 content ≡ ((ok n, store'), g')
      → read_with_ns agent nss true no_cache h store' path 0 buffer
        ≡ (served (length content) content, store')
  unfolding read_with_ns
  write-read_with_ns g g' h store store' path content buffer n no_cache some_bytes fits e = ground (
    arith,
    get_data-whole store' path content buffer
        (write_with_ns-cached g g' store store' path content n e) fits (omega arith),
  )

  -- A process in the container's namespaces that reads at an offset which its buffer does not reach
  -- beyond gets nothing, whatever the file holds.
  pub read_with_ns-beyond_buffer :
      (g : G) (store : DataStore) (path : String) (offset : ℕ) (buffer : Bytes) (no_cache : Bool)
      → 0 < offset
      → length buffer ≤ offset
      → read_with_ns agent nss true no_cache g store path offset buffer ≡ (served 0 buffer, store)
  unfolding read_with_ns get_data
  read_with_ns-beyond_buffer g store path offset buffer no_cache behind short =
      elim (Option-cases (lookup path store)) [
        | inl e ↦ ground arith
        | inr (curr, e) ↦ ground arith
      ]

  fetched-cached :
      (g : G) (store store' : DataStore) (path : String) (got : Result ℕ Bytes) (bytes : Bytes)
      (n : ℕ)
      → 0 < n
      → keep_fetched agent false store path 0 got ≡ (served n bytes, store')
      → (got ≡ ok bytes) × (n ≡ length bytes) × (lookup path store' ≡ some bytes)
  unfolding keep_fetched
  fetched-cached g store store' path (err e) bytes n some_bytes h = absurd (ground arith)
  fetched-cached g store store' path (ok got) bytes n some_bytes h =
      elim (Result-cases (set_data store path (pos 0) got)) [
        | inr (er, failed) ↦ absurd (ground arith)
        | inl (s, set) ↦ ground (arith, set_data-start store s path got set)
      ]

  asks-again :
      (g h : G) (store store' : DataStore) (path : String) (buffer read bytes : Bytes) (n : ℕ)
      → ((k : G) (size : ℕ) (got : Bytes)
          → agent.read_file k (event_at path nss) 0 size ≡ ok got
          → length got ≤ size)
      → 0 < n
      → length read ≤ length buffer
      → keep_fetched agent false store path 0 (fetch_file agent nss g path 0 read)
        ≡ (served n bytes, store')
      → read_with_ns agent nss true false h store' path 0 buffer ≡ (served n bytes, store')
  unfolding read_with_ns
  asks-again g h store store' path buffer read bytes n bounded some_bytes shorter e =
      let (got, size, cached) =
        fetched-cached g store store' path (fetch_file agent nss g path 0 read) bytes n some_bytes
          e in
      let fits : length bytes ≤ length read = bounded g (length read) bytes got in
      ground (arith, get_data-whole store' path bytes buffer cached (omega arith) (omega arith))

  -- If the agent returns no more bytes than it is asked for, a caching read at the start that serves
  -- some bytes is repeated with the same buffer and the same result, whatever the file holds by then.
  pub read_with_ns-repeats :
      (g h : G) (store store' : DataStore) (path : String) (buffer bytes : Bytes) (n : ℕ)
      → ((k : G) (size : ℕ) (got : Bytes)
          → agent.read_file k (event_at path nss) 0 size ≡ ok got
          → length got ≤ size)
      → 0 < n
      → read_with_ns agent nss true false g store path 0 buffer ≡ (served n bytes, store')
      → read_with_ns agent nss true false h store' path 0 buffer ≡ (served n bytes, store')
  unfolding read_with_ns get_data
  read_with_ns-repeats g h store store' path buffer bytes n bounded some_bytes e =
      elim (Option-cases (lookup path store)) [
        | inl missing ↦
            asks-again g h store store' path buffer buffer bytes n bounded some_bytes (omega arith)
              (ground arith)
        | inr ([], found) ↦ elim (Bool-cases (length buffer == 0)) [
          | inl full ↦
              asks-again g h store store' path buffer buffer bytes n bounded some_bytes
                (omega arith) (ground arith)
          | inr room ↦
              asks-again g h store store' path buffer [] bytes n bounded some_bytes (omega arith)
                (ground arith)
        ]
        | inr (b ∷ rest, found) ↦ elim (Bool-cases (length buffer == 0)) [
          | inl full ↦
              asks-again g h store store' path buffer buffer bytes n bounded some_bytes
                (omega arith) (ground arith)
          | inr room ↦ ground arith
        ]
      ]
