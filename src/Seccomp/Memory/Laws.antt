-- ===== src/Seccomp/Memory/Laws.antt =====
-- What is read of a memory: nothing, C strings, and values.
use sysbox_fs.Prelude.{
  ℕ, zero, suc, ◌<◌, ◌≤◌, ◌≡◌, refl, ap, true, false, none, some, List, [], ◌∷◌, ◌++◌, ◌==◌, nat_eq,
  arith, length, any, take-all,
}
use sysbox_fs.Prelude.Bytes.{Bytes}
use sysbox_fs.Seccomp.Memory.{
  Tracee, read, unreadable, also, read_process_mem, read_syscall_string_args,
  read_syscall_bytes_args, go_string, fill,
}

-- The memory of the process cannot be read at an address that is not null.
pub unreadable_string :
    (t : Tracee) (addr size : ℕ) (elems : List (ℕ × ℕ))
    → t.vm_readv addr size ≡ none
    → 0 < addr
    → 0 < size
    → read_syscall_string_args t ((addr, size) ∷ elems) ≡ unreadable
unfolding read_syscall_string_args read_process_mem
unreadable_string t addr size elems h a s = ground arith

-- C strings: what is read of bytes without a zero, followed by a zero within the buffer.
go_string-fill :
    (size : ℕ) (behind bs rest : Bytes)
    → any (λ b. b == 0) bs ≡ false
    → length bs < size
    → go_string behind (fill size (bs ++ 0 ∷ rest)) ≡ bs
unfolding go_string fill
go_string-fill zero behind bs rest h l = absurd (omega arith)
go_string-fill (suc n) behind [] rest h l = refl
go_string-fill (suc n) behind (b ∷ bs) rest h l = ground (arith, go_string-fill n behind bs rest)

fill-length : (n : ℕ) (bs : Bytes) → length bs ≡ n → fill n bs ≡ bs
unfolding fill
fill-length zero [] h = refl
fill-length zero (b ∷ bs) h = absurd (omega arith)
fill-length (suc n) [] h = absurd (omega arith)
fill-length (suc n) (b ∷ bs) h = ap (λ rest. b ∷ rest) (fill-length n bs (omega arith))

-- A C string stands at an address: its bytes, and what follows its zero, are copied.
pub record IsCString (t : Tracee) (addr size : ℕ) (bs : Bytes) : Type 0 where
  pub behind_zero : Bytes
  pub copied : t.vm_readv addr size ≡ some (bs ++ 0 ∷ behind_zero)
  pub no_zero : any (λ b. b == 0) bs ≡ false
  pub fits : length bs < size
  pub no_more : length (bs ++ 0 ∷ behind_zero) ≤ size
  pub not_null : 0 < addr

pub string-read :
    (t : Tracee) (addr size : ℕ) (elems : List (ℕ × ℕ)) (bs : Bytes)
    → IsCString t addr size bs
    → read_syscall_string_args t ((addr, size) ∷ elems)
      ≡ also (t.text bs) (read_syscall_string_args t elems)
unfolding read_syscall_string_args read_process_mem
string-read t addr size elems bs s =
    let at = s.copied in
    let null = s.not_null in
    let more = s.no_more in
    let fit = s.fits in
    ground (arith, go_string-fill size t.behind bs s.behind_zero s.no_zero s.fits)

pub bytes-read :
    (t : Tracee) (addr size : ℕ) (val : Bytes)
    → t.vm_readv addr size ≡ some val
    → length val ≡ size
    → 0 < addr
    → 0 < size
    → size < 2147483648
    → t.allocates size ≡ true
    → read_syscall_bytes_args t ((addr, size) ∷ []) ≡ read (val ∷ [])
unfolding read_syscall_bytes_args read_process_mem also
bytes-read t addr size val h l a s lt al = ground (arith, fill-length size val l, take-all size val)
