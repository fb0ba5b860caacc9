-- ===== src/Handler/Store/Laws.antt =====
-- The maximum rule of shared files, and what a container reads behind its own writes.
use sysbox_fs.Prelude.{
  ℕ, zero, suc, ◌<◌, ◌≤◌, ◌≡◌, inl, inr, refl, ap, String, Bool, true, false, Option, none, some,
  ◌==◌, string_eq, length, ok, arith, Bool-cases, Option-cases, Result-cases, if◌then◌else◌,
}
use sysbox_fs.Prelude.Maps.{lookup}
use sysbox_fs.Prelude.Int.{ℤ, pos, negsuc}
use sysbox_fs.Prelude.Bytes.{Bytes, bytes_eq}
use sysbox_fs.State.Data.{DataStore, set_data}
use sysbox_fs.State.Data.Laws.{get_data-whole, set_data-start, set_data-start_ok}
use sysbox_fs.Handler.Ints.{parse_int, int_ltb, write_max_int_to_fs}
use sysbox_fs.Handler.Ints.Laws.{write_max-defined}
use sysbox_fs.Handler.Store.{
  Node, served, write_rounds, write_fs, read_cntr_data, write_cntr_data, ignoring,
}

-- No other agent writes.
abbrev pub idle : {F : Type 0} → ℕ → F → F
idle n f = f

pub int_ltb_irrefl : (a : ℤ) → int_ltb a a ≡ false
int_ltb_irrefl (pos n) = ground arith
int_ltb_irrefl (negsuc n) = ground arith

module _ {F : Type 0} (node : Node F) (offset : ℕ) (content : Bytes) (g : F) where
  -- A file that holds the new content already keeps it in all rounds.
  write_rounds-settled :
      (condition : Bytes → Bytes → Option Bool)
      → ((h : F) → node.write_at h offset content ≡ some g)
      → (n size : ℕ) → (write_rounds node idle condition offset content n size g).1 ≡ g
  unfolding write_rounds
  write_rounds-settled condition stores zero size = refl
  write_rounds-settled condition stores (suc n) size =
      elim (Option-cases (node.read_at g size offset)) [
        | inl e ↦ ground arith
        | inr ((curr, at_end), e) ↦
            ground (arith, stores g, write_rounds-settled condition stores n (length curr))
      ]

  -- With no other agent, one decision on what the file shows settles a write: the file ends with the
  -- new content or as it was.
  pub write_fs-decided :
      (condition : Bytes → Bytes → Option Bool)
      → (f : F) (curr : Bytes) (at_end d : Bool) → node.opens f ≡ true
      → node.read_at f 65536 offset ≡ some (curr, at_end)
      → ((h : F) → node.write_at h offset content ≡ some g)
      → condition curr content ≡ some d
      → ((curr == content) ≡ true → d ≡ false)
      → (write_fs node idle true (some condition) offset content f).1 ≡ (if d then g else f)
  unfolding write_fs write_rounds
  write_fs-decided condition f curr at_end d opened read stores decided same =
      elim (Bool-cases (curr == content)) [
        | inl e ↦ ground (arith, same e)
        | inr e ↦ elim (Bool-cases d) [
          | inr less ↦ ground arith
          | inl more ↦
              ground (arith, stores f, write_rounds-settled condition stores 4 (length curr))
        ]
      ]

  -- With no other agent, a write under the maximum rule leaves the file with the new content if the
  -- number in it is larger than that in the file, and as it was otherwise; whether the call ends with
  -- an error or not.
  pub write_fs-max :
      (f : F) (curr : Bytes) (at_end : Bool) (a b : ℤ)
      → node.opens f ≡ true
      → node.read_at f 65536 offset ≡ some (curr, at_end)
      → ((h : F) → node.write_at h offset content ≡ some g)
      → parse_int curr ≡ some a
      → parse_int content ≡ some b
      → (write_fs node idle true (some write_max_int_to_fs) offset content f).1
        ≡ (if int_ltb a b then g else f)
  write_fs-max f curr at_end a b opened read stores ha hb =
      write_fs-decided write_max_int_to_fs f curr at_end (int_ltb a b) opened read stores
        (write_max-defined curr content a b ha hb)
        (λ same.
          let numbers : parse_int curr ≡ parse_int content =
            ap parse_int ((bytes_eq.equal_iff curr content).0 same) in
          ground (arith, int_ltb_irrefl a))

cache_set :
    {F : Type 0} (node : Node F) (others : ℕ → F → F) (mutex ignore : Bool)
    (push : Option (Bytes → Bytes → Option Bool)) (f f' : F) (store store' : DataStore)
    (path : String) (content : Bytes) (sz : ℕ)
    → write_cntr_data node others mutex ignore push f store path 0 content ≡ ((ok sz, store'), f')
    → lookup path store' ≡ some content
unfolding write_cntr_data
cache_set node others mutex ignore push f f' store store' path content sz h =
    elim (Result-cases
      (ignoring node ignore content (write_fs node others mutex push 0 content f).0)) [
        | inr (e, failed) ↦ absurd (ground arith)
        | inl (n, wrote) ↦ elim (Result-cases (set_data store path (pos 0) content)) [
          | inr (e, failed) ↦ absurd (ground arith)
          | inl (s, e) ↦ ground (arith, set_data-start store s path content e)
        ]
      ]

-- A write at the start that the host is not told of ends well.
pub write_cntr_data-unpushed :
    {F : Type 0} (node : Node F) (others : ℕ → F → F) (mutex ignore : Bool) (f : F)
    (store : DataStore) (path : String) (content : Bytes)
    → (store' : DataStore) × (write_cntr_data node others mutex ignore none f store path 0 content
        ≡ ((ok (length content), store'), f))
unfolding write_cntr_data write_fs
write_cntr_data-unpushed node others mutex ignore f store path content =
    let (store', set) = set_data-start_ok store path content in (store', ground arith)

-- The bytes that a container wrote at the start of a resource are what it reads
-- from the start, into a buffer that they fit in; the file is not asked again.
pub write-read_cntr_data :
    {F : Type 0} (node : Node F) (others : ℕ → F → F) (mutex ignore mutex' : Bool)
    (push : Option (Bytes → Bytes → Option Bool)) (f f' g : F) (store store' : DataStore)
    (path : String) (content buffer : Bytes) (sz : ℕ)
    → 0 < length content
    → length content ≤ length buffer
    → write_cntr_data node others mutex ignore push f store path 0 content ≡ ((ok sz, store'), f')
    → read_cntr_data node mutex' g store' path 0 buffer ≡ (served (length content) content, store')
unfolding write_cntr_data read_cntr_data
write-read_cntr_data node others mutex ignore mutex' push f f' g store store' path content buffer sz
      some_bytes fits h =
    let cached : lookup path store' ≡ some content =
      cache_set node others mutex ignore push f f' store store' path content sz h in
    ground (arith, get_data-whole store' path content buffer cached fits (omega arith))
