-- ===== src/Handler/Kernel/Laws.antt =====
-- What writes under /proc/sys/kernel may change.
use sysbox_fs.Prelude.{
  Bool, ◌||◌, not, any, List, [], ◌∷◌, ◌==◌, ok, Result-cases, ℕ, ◌<◌, ◌≤◌, ◌≡◌, ◌⊎◌, inl, inr,
  refl, sym, subst, eq_iff, String, true, false, none, some, nat_eq, string_eq, length, err, arith,
  Bool-cases,
}
use sysbox_fs.Prelude.Int.{ℤ}
use sysbox_fs.Prelude.Bytes.{Bytes}
use sysbox_fs.Handler.Ints.{check_int_range, int_ltb, parse_int}
use sysbox_fs.Handler.Ints.Laws.{check_int_range_sound}
use sysbox_fs.Handler.Store.{Node, served, write_cntr_data, write_fs}
use sysbox_fs.Handler.Store.Laws.{write-read_cntr_data, write_cntr_data-unpushed}
use sysbox_fs.Handler.PassThrough.{FileAgent, FileEvent, event_at, all_nss, write_with_ns, einval}
use sysbox_fs.Handler.Kernel.{
  World, Request, kernel_write, kernel_read, range_of, in_range_of, find_resource, is_emulated,
  is_fixed, write_cached, write_through, namespaces_of,
}

ranged_name :
    (name : String) (r : ℤ × ℤ)
    → range_of name ≡ some r
    → (name ≡ "pid_max") ⊎ (name ≡ "kptr_restrict") ⊎ (name ≡ "dmesg_restrict") ⊎ (name ≡ "sysrq")
unfolding range_of
ranged_name name r h = ground (
  arith,
  eq_iff name "pid_max",
  eq_iff name "kptr_restrict",
  eq_iff name "dmesg_restrict",
  eq_iff name "sysrq",
)

ranged-emulated :
    (name : String) (r : ℤ × ℤ)
    → range_of name ≡ some r
    → (is_fixed name ≡ false) × (is_emulated name ≡ true)
unfolding is_emulated find_resource
ranged-emulated name r h =
    let P : String → Type 0 = λ x. (is_fixed x ≡ false) × (is_emulated x ≡ true) in
    elim (ranged_name name r h) [
      | inl e ↦ subst P (sym e) (refl, refl)
      | inr (inl e) ↦ subst P (sym e) (refl, refl)
      | inr (inr (inl e)) ↦ subst P (sym e) (refl, refl)
      | inr (inr (inr e)) ↦ subst P (sym e) (refl, refl)
    ]

-- The resources that the container has to itself, and those that only the host's root may write where
-- the kernel keeps them outside of IPC namespaces of a container.
abbrev pub own_names : List String
own_names =
    "domainname" ∷ "hostname" ∷ "kptr_restrict" ∷ "dmesg_restrict" ∷ "ngroups_max" ∷ "cap_last_cap"
    ∷ "panic" ∷ "panic_on_oops" ∷ "printk" ∷ "sysrq" ∷ "pid_max" ∷ []

abbrev pub shm_names : List String
shm_names = "shmall" ∷ "shmmax" ∷ "shmmni" ∷ []

own-emulated : (name : String) → is_emulated name ≡ any (λ n. n == name) own_names
unfolding is_emulated find_resource
own-emulated name = ground arith

namespaces-joined :
    (shm_namespaced : Bool) (name : String)
    → (shm_namespaced || not (any (λ n. n == name) shm_names)) ≡ true
    → namespaces_of shm_namespaced name ≡ all_nss
unfolding namespaces_of
namespaces-joined shm_namespaced name h = ground (
  arith,
  eq_iff name "shmall",
  eq_iff name "shmmax",
  eq_iff name "shmmni",
  eq_iff "shmall" name,
  eq_iff "shmmax" name,
  eq_iff "shmmni" name,
)

-- The sysctls of the host are apart from what an agent in the container's user namespace writes.
module _ {F G H : Type 0} (node : Node F) (agent : FileAgent G) (others : ℕ → F → F)
    (host_sysctls : G → H)
    (apart : (g g' : G) (e : FileEvent) (offset : ℕ) (content : Bytes)
      → e.namespaces ≡ all_nss
      → agent.write_file g e offset content ≡ ok g'
      → host_sysctls g' ≡ host_sysctls g) where
  write_through-apart :
      (req : Request) (w : World F G) (offset : ℕ) (content : Bytes)
      → namespaces_of req.shm_namespaced req.name ≡ all_nss
      → host_sysctls (write_through node agent others req w offset content).1.inner
        ≡ host_sysctls w.inner
  unfolding write_through write_with_ns
  write_through-apart req w offset content joined =
      let e = event_at req.path (namespaces_of req.shm_namespaced req.name) in
      elim (Result-cases (agent.write_file w.inner e offset content)) [
        | inl (g', wrote) ↦ ground (arith, apart w.inner g' e offset content joined wrote)
        | inr (code, failed) ↦ ground arith
      ]

  write_cached-unchanged :
      (req : Request) (w : World F G) (offset : ℕ) (content : Bytes)
      → let w' = (write_cached node agent others req w offset content).1 in
        (w'.host ≡ w.host) × (w'.inner ≡ w.inner)
  unfolding write_cached write_cntr_data write_fs
  write_cached-unchanged req w offset content = (ground arith, ground arith)

  write_through-host :
      (req : Request) (w : World F G) (offset : ℕ) (content : Bytes)
      → (write_through node agent others req w offset content).1.host ≡ w.host
  unfolding write_through
  write_through-host req w offset content = ground arith

  -- Where no write of an agent in the container's user namespace changes the sysctls of the host, a
  -- write under /proc/sys/kernel changes neither these nor a file that sysbox-fs opens on the host,
  -- unless it is one to shmall, shmmax or shmmni on a kernel that does not keep them per namespace;
  -- and a write to a resource that the container has to itself changes nothing that agents write to.
  pub kernel_write-isolated :
      (req : Request) (w : World F G) (offset : ℕ) (content : Bytes)
      → (req.shm_namespaced || not (any (λ n. n == req.name) shm_names)) ≡ true
      → let w' = (kernel_write node agent others req w offset content).1 in
        (w'.host ≡ w.host)
        × (host_sysctls w'.inner ≡ host_sysctls w.inner)
        × ((any (λ n. n == req.name) own_names ≡ false) ⊎ (w'.inner ≡ w.inner))
  unfolding kernel_write
  kernel_write-isolated req w offset content plain =
      let joined = namespaces-joined req.shm_namespaced req.name plain in
      let (host, inner) = write_cached-unchanged req w offset content in
      elim (Bool-cases (is_fixed req.name)) [
        | inl f ↦ (ground arith, ground arith, inr (ground arith))
        | inr f ↦ elim (Bool-cases (in_range_of req.name content)) [
          | inr r ↦ (ground arith, ground arith, inr (ground arith))
          | inl r ↦ elim (Bool-cases (is_emulated req.name)) [
            | inl e ↦ (ground arith, ground arith, inr (ground arith))
            | inr e ↦ (
              ground (arith, write_through-host req w offset content),
              ground (arith, write_through-apart req w offset content joined),
              inl (ground (arith, own-emulated req.name)),
            )
          ]
        ]
      ]

module _ {F G : Type 0} (node : Node F) (agent : FileAgent G) (others : ℕ → F → F) where
  -- A write at the start of a resource with a range, of some bytes that fit the reader's buffer, is
  -- refused with EINVAL and changes nothing, or the bytes are a number within the range and what the
  -- container then reads.
  pub kernel_write-in_range :
      (req : Request) (w : World F G) (content buffer : Bytes) (min max : ℤ)
      → range_of req.name ≡ some (min, max)
      → 0 < length content
      → length content ≤ length buffer
      → (kernel_write node agent others req w 0 content ≡ (err einval, w))
        ⊎ ((val : ℤ) × (parse_int content ≡ some val)
            × (int_ltb val min ≡ false)
            × (int_ltb max val ≡ false)
            × (let w' = (kernel_write node agent others req w 0 content).1 in
                kernel_read node agent others req w' 0 buffer
                ≡ (served (length content) content, w'.cache)))
  unfolding kernel_write kernel_read write_cached in_range_of
  kernel_write-in_range req w content buffer min max ranged some_bytes fits =
      let (free, emulated) = ranged-emulated req.name (min, max) ranged in
      elim (Bool-cases (check_int_range content min max)) [
        | inr out ↦ inl (ground arith)
        | inl fine ↦
            let (val, parsed, low, high) = check_int_range_sound content min max fine in
            let (cache', wrote) =
              write_cntr_data-unpushed node others true req.ignore_errors w.host w.cache req.path
                content in
            inr (
              val,
              parsed,
              low,
              high,
              ground (
                arith,
                write-read_cntr_data node others true req.ignore_errors true none w.host w.host
                    w.host w.cache cache' req.path content buffer (length content) some_bytes fits
                    wrote,
              ),
            )
      ]
