-- ===== src/Handler/Sysctl/Net/Laws.antt =====
-- What writes of nf_conntrack_tcp_be_liberal do to the host's mode
-- (handler/implementations/procSysNetNetfilter.go).
use sysbox_fs.Prelude.{
  ◌≡◌, inl, inr, refl, ap, true, false, Bool, some, List, [], ◌∷◌, any, ◌&&◌, ◌||◌, not, arith,
  ◌==◌, nat_eq, string_eq, eq_iff, Bool-cases, Option-cases, if◌then◌else◌,
}
use sysbox_fs.Prelude.Int.{ℤ, pos, negsuc, int_eq}
use sysbox_fs.Prelude.Bytes.{Bytes, bytes_eq}
use sysbox_fs.Handler.Ints.{parse_int}
use sysbox_fs.Handler.Store.{Node, write_cntr_data}
use sysbox_fs.Handler.Store.Laws.{idle, write_fs-decided}
use sysbox_fs.Handler.PassThrough.{FileAgent}
use sysbox_fs.Handler.Kernel.{find_resource}
use sysbox_fs.Handler.Sysctl.{has_resource, sysctl_write, write_emulated}
use sysbox_fs.Handler.Sysctl.Laws.{HostWrite, number, is_number}
use sysbox_fs.Handler.Sysctl.Net.{write_tcp_liberal, liberal, netfilter_write}

abbrev pub is_on : ℤ → Bool
is_on n = not (n == pos 0)

abbrev sends : ℤ → ℤ → Bool
sends c n = not (n == c) && not (n == pos 0)

is_on-joined : (n c : ℤ) → is_on (if sends c n then n else c) ≡ (is_on c || is_on n)
is_on-joined (pos n) (pos c) = ground arith
is_on-joined (pos n) (negsuc c) = ground arith
is_on-joined (negsuc n) (pos c) = ground arith
is_on-joined (negsuc n) (negsuc c) = ground arith

write_tcp_liberal-defined :
    (curr new : Bytes) (c n : ℤ)
    → parse_int curr ≡ some c
    → parse_int new ≡ some n
    → write_tcp_liberal curr new ≡ some (sends c n)
unfolding write_tcp_liberal liberal
write_tcp_liberal-defined curr new c n hc hn = rw (hc, hn) refl

module _ {F G : Type 0} (node : Node F) (agent : FileAgent G) (shown : F → Bytes)
    (put : Bytes → F) where
  -- One write after the other, each of a container with a state of its own.
  abbrev pub mode_after : F → List (HostWrite G) → F
  mode_after f [] = f
  mode_after f (w ∷ ws) =
      mode_after
        (netfilter_write node agent idle w.req
          (record { host = f; cache = w.cache; inner = w.inner }) 0 w.new).1.host
        ws

  -- The file can be opened and read whole, and a write at the start replaces what it shows.
  module _ (opened : (f : F) → node.opens f ≡ true)
      (read : (f : F) → node.read_at f 65536 0 ≡ some (shown f, true))
      (written : (f : F) (new : Bytes) → node.write_at f 0 new ≡ some (put new))
      (shown_put : (new : Bytes) → shown (put new) ≡ new) where
    write-mode :
        (w : HostWrite G) (f : F) (c n : ℤ)
        → w.req.name ≡ "nf_conntrack_tcp_be_liberal"
        → parse_int (shown f) ≡ some c
        → parse_int w.new ≡ some n
        → (netfilter_write node agent idle w.req
            (record { host = f; cache = w.cache; inner = w.inner })
            0
            w.new).1.host
          ≡ (if sends c n then put w.new else f)
    unfolding sysctl_write write_emulated write_cntr_data has_resource find_resource
    write-mode w f c n named hc hn = rw named (
        write_fs-decided node 0 w.new (put w.new) write_tcp_liberal f (shown f) true (sends c n)
          (opened f) (read f) (λ h. written h w.new)
          (write_tcp_liberal-defined (shown f) w.new c n hc hn)
          (λ same.
            let numbers : parse_int (shown f) ≡ parse_int w.new =
              ap parse_int ((bytes_eq.equal_iff (shown f) w.new).0 same) in
            let equal : n ≡ c = ground arith in
            let e : (n == c) ≡ true = (int_eq.equal_iff n c).1 equal in ground arith))

    shows-mode :
        (x f : F) (new : Bytes) (c n : ℤ)
        → x ≡ (if sends c n then put new else f)
        → parse_int (shown f) ≡ some c
        → parse_int new ≡ some n
        → parse_int (shown x) ≡ some (if sends c n then n else c)
    shows-mode x f new c n e hc hn = elim (Bool-cases (sends c n)) [
      | inr same ↦ rw (e, same) hc
      | inl more ↦ rw (e, more, shown_put new) hn
    ]

    -- With a host file that opens, is read whole, and shows what was last written, writes of numbers
    -- to nf_conntrack_tcp_be_liberal by any containers, one after the other, leave a number other
    -- than 0 in the file exactly when one was there before or one of the numbers written is not 0.
    pub mode_after-liberal :
        (ws : List (HostWrite G)) (f : F) (c : ℤ)
        → parse_int (shown f) ≡ some c
        → any (λ w. not (w.req.name == "nf_conntrack_tcp_be_liberal" && is_number w.new)) ws ≡ false
        → is_on (number (shown (mode_after f ws))) ≡ (is_on c || any (λ w. is_on (number w.new)) ws)
    mode_after-liberal [] f c h all = ground arith
    mode_after-liberal (w ∷ ws) f c h all = elim (Option-cases (parse_int w.new)) [
      | inl bad ↦ absurd (ground arith)
      | inr (n, hn) ↦
          let named : (w.req.name == "nf_conntrack_tcp_be_liberal") ≡ true = ground arith in
          let rest : any (λ v. not (v.req.name == "nf_conntrack_tcp_be_liberal" && is_number v.new))
                ws
              ≡ false =
            ground arith in
          let first = write-mode w f c n ((eq_iff w.req.name _).0 named) h hn in
          let later =
            mode_after-liberal ws _ (if sends c n then n else c)
              (shows-mode _ f w.new c n first h hn) rest in
          let joined = is_on-joined n c in ground arith
    ]
