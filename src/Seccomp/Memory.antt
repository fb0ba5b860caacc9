-- ===== src/Seccomp/Memory.antt =====
-- The memory of a calling process (seccomp/memParserIOvec.go). What process_vm_readv copies and what
-- the runtime of Go allocates are parameters.
pub mod Laws
use sysbox_fs.Prelude.{
  ℕ, zero, suc, ◌^◌, ◌%◌, String, Bool, ◌&&◌, not, Option, none, some, List, [], ◌∷◌, length, take,
  ◌==◌, nat_eq, ltb, leb, if◌then◌else◌,
}
use sysbox_fs.Prelude.Bytes.{Bytes}

-- The bytes copied from an address, up to a size; whether a buffer can be allocated; what stands
-- behind a buffer of the program, up to the next zero byte; the text that bytes mean.
pub record Tracee : Type 0 where
  pub vm_readv : ℕ → ℕ → Option Bytes
  pub allocates : ℕ → Bool
  pub behind : Bytes
  pub text : Bytes → String

-- A result, a Go error, or a panic.
pub data Reading {ℓ} (A : Type ℓ) : Type ℓ where
  read : A → Reading A
  unreadable panicked : Reading A

-- A buffer of zeros that is overwritten from the start.
unfoldable pub fill : ℕ → Bytes → Bytes
fill zero bs = []
fill (suc n) [] = 0 ∷ fill n []
fill (suc n) (b ∷ bs) = b ∷ fill n bs

unfoldable pub read_process_mem : Tracee → ℕ → ℕ → Option Bytes
unfolding fill
read_process_mem t addr size =
    if addr == 0 then some (fill size []) else elim (t.vm_readv addr size) [
      | none ↦ none
      | some bs ↦ if ltb size (length bs) then none else some (fill size bs)
    ]

-- `C.GoString`, which does not stop at the end of the buffer.
unfoldable pub go_string : Bytes → Bytes → Bytes
go_string behind [] = behind
go_string behind (b ∷ bs) = if b == 0 then [] else b ∷ go_string behind bs

unfoldable pub also {ℓ} : {A : Type ℓ} → A → Reading (List A) → Reading (List A)
also x (read xs) = read (x ∷ xs)
also x unreadable = unreadable
also x panicked = panicked

-- Addresses and sizes; an element of size 0 gets no string.
unfoldable pub read_syscall_string_args : Tracee → List (ℕ × ℕ) → Reading (List String)
unfolding read_process_mem go_string also
read_syscall_string_args t [] = read []
read_syscall_string_args t ((addr, size) ∷ elems) =
    let rest = read_syscall_string_args t elems in
    if size == 0 then rest else elim (read_process_mem t addr size) [
      | none ↦ unreadable
      | some buf ↦ also (t.text (go_string t.behind buf)) rest
    ]

-- `e.size > 0`, of an int that was a uint64.
abbrev pub is_positive : ℕ → Bool
is_positive size = ltb 0 size && ltb size (2 ^ 63)

-- `C.GoStringN` takes the size as an int32, and panics at a negative one.
unfoldable pub read_syscall_bytes_args : Tracee → List (ℕ × ℕ) → Reading (List Bytes)
unfolding read_process_mem also
read_syscall_bytes_args t [] = read []
read_syscall_bytes_args t ((addr, size) ∷ elems) =
    let rest = read_syscall_bytes_args t elems in
    if not (is_positive size)
    then rest
    else if not (t.allocates size)
    then panicked
    else elim (read_process_mem t addr size) [
      | none ↦ unreadable
      | some buf ↦
          if leb (2 ^ 31) (size % 2 ^ 32) then panicked else also (take (size % 2 ^ 32) buf) rest
    ]
