-- ===== src/Handler/Sysctl/Laws.antt =====
-- A sysctl of the host that several containers write.
use sysbox_fs.Prelude.{
  ◌≡◌, inl, inr, refl, sym, subst, String, Bool, true, false, not, ◌&&◌, ◌||◌, Option, none, some,
  List, [], ◌∷◌, any, ◌==◌, nat_eq, string_eq, eq_iff, arith, Bool-cases, Option-cases,
  if◌then◌else◌,
}
use sysbox_fs.Prelude.Int.{ℤ, pos}
use sysbox_fs.Prelude.Bytes.{Bytes}
use sysbox_fs.State.Data.{DataStore}
use sysbox_fs.Handler.Ints.{parse_int, int_ltb, write_max_int_to_fs}
use sysbox_fs.Handler.Store.{Node, write_cntr_data}
use sysbox_fs.Handler.Store.Laws.{idle, write_fs-max}
use sysbox_fs.Handler.PassThrough.{FileAgent}
use sysbox_fs.Handler.Kernel.{Request, find_resource}
use sysbox_fs.Handler.Sysctl.{proc_sys_fs, has_resource, sysctl_write, write_emulated, fs_write}

-- A write of a container: its request, its data store, its own files, the bytes.
pub record HostWrite (G : Type 0) : Type 0 where
  pub req : Request
  pub cache : DataStore
  pub inner : G
  pub new : Bytes

abbrev pub or_zero : Option ℤ → ℤ
or_zero none = pos 0
or_zero (some n) = n

abbrev pub number : Bytes → ℤ
number bytes = or_zero (parse_int bytes)

abbrev pub is_number : Bytes → Bool
is_number bytes = elim (parse_int bytes) [ none ↦ false | some n ↦ true ]

abbrev pub is_shared : String → Bool
is_shared name = name == "file-max" || name == "nr_open"

abbrev pub larger : ℤ → ℤ → ℤ
larger a b = if int_ltb a b then b else a

-- What the handler does with a write to a shared resource.
abbrev SharedRules : String → Type 0
SharedRules name =
    (has_resource proc_sys_fs name ≡ true)
    × ((new : Bytes) → proc_sys_fs.accepts name new ≡ true)
    × (proc_sys_fs.push name ≡ some write_max_int_to_fs)

shared-SharedRules : (name : String) → is_shared name ≡ true → SharedRules name
unfolding has_resource find_resource
shared-SharedRules name h = elim (Bool-cases (name == "file-max")) [
  | inl e ↦ subst SharedRules (sym ((eq_iff name "file-max").0 e)) (refl, (λ new. refl), refl)
  | inr e ↦
      let e' : (name == "nr_open") ≡ true = ground arith in
      subst SharedRules (sym ((eq_iff name "nr_open").0 e')) (refl, (λ new. refl), refl)
]

module _ {F G : Type 0} (node : Node F) (agent : FileAgent G) (shown : F → Bytes)
    (put : Bytes → F) where
  -- One write after the other, each of a container with a state of its own.
  abbrev pub host_after : F → List (HostWrite G) → F
  host_after f [] = f
  host_after f (w ∷ ws) =
      host_after
        (fs_write node agent idle w.req (record { host = f; cache = w.cache; inner = w.inner }) 0
          w.new).1.host
        ws

  abbrev pub largest : ℤ → List (HostWrite G) → ℤ
  largest a [] = a
  largest a (w ∷ ws) = largest (larger a (number w.new)) ws

  -- The file can be opened and read whole, and a write at the start replaces what it shows.
  module _ (opened : (f : F) → node.opens f ≡ true)
      (read : (f : F) → node.read_at f 65536 0 ≡ some (shown f, true))
      (written : (f : F) (new : Bytes) → node.write_at f 0 new ≡ some (put new))
      (shown_put : (new : Bytes) → shown (put new) ≡ new) where
    fs_write-host :
        (w : HostWrite G) (f : F) (a b : ℤ)
        → is_shared w.req.name ≡ true
        → parse_int (shown f) ≡ some a
        → parse_int w.new ≡ some b
        → (fs_write node agent idle w.req
            (record { host = f; cache = w.cache; inner = w.inner })
            0
            w.new).1.host
          ≡ (if int_ltb a b then put w.new else f)
    unfolding sysctl_write write_emulated write_cntr_data
    fs_write-host w f a b shared ha hb =
        let (known, fine, pushed) = shared-SharedRules w.req.name shared in
        rw (known, fine w.new, pushed)
          (write_fs-max node 0 w.new (put w.new) f (shown f) true a b (opened f) (read f)
            (λ h. written h w.new) ha hb)

    shows-larger :
        (x f : F) (new : Bytes) (a b : ℤ)
        → x ≡ (if int_ltb a b then put new else f)
        → parse_int (shown f) ≡ some a
        → parse_int new ≡ some b
        → parse_int (shown x) ≡ some (larger a (number new))
    shows-larger x f new a b e ha hb = elim (Bool-cases (int_ltb a b)) [
      | inr same ↦ ground arith
      | inl more ↦ ground (arith, shown_put new)
    ]

    -- With a host file that opens, is read whole, and shows what was last written, writes of numbers
    -- to file-max or nr_open by any containers, one after the other, leave the file with the largest
    -- of the numbers written and of the one that was there.
    pub host_after-largest :
        (name : String) (ws : List (HostWrite G)) (f : F) (a : ℤ)
        → is_shared name ≡ true
        → parse_int (shown f) ≡ some a
        → any (λ w. not (w.req.name == name && is_number w.new)) ws ≡ false
        → parse_int (shown (host_after f ws)) ≡ some (largest a ws)
    host_after-largest name [] f a shared h all = h
    host_after-largest name (w ∷ ws) f a shared h all = elim (Option-cases (parse_int w.new)) [
      | inl bad ↦ absurd (ground arith)
      | inr (b, hb) ↦
          let named : (w.req.name == name) ≡ true = ground arith in
          let rest : any (λ v. not (v.req.name == name && is_number v.new)) ws ≡ false =
            ground arith in
          let first =
            fs_write-host w f a b
              (subst (λ n. is_shared n ≡ true) (sym ((eq_iff w.req.name name).0 named)) shared) h
              hb in
          host_after-largest name ws _ (larger a (number w.new)) shared
            (shows-larger _ f w.new a b first h hb) rest
    ]
