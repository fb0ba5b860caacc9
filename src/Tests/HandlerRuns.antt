-- ===== src/Tests/HandlerRuns.antt =====
-- Emulated files at work: a host file that holds a number, a container with a file of its own, and
-- two handlers.
use sysbox_fs.Prelude.{
  ℕ, ◌+◌, ◌||◌, any, String, ◌≡◌, refl, ◌⊎◌, Bool, true, false, none, some, List, [], ◌∷◌, ◌++◌,
  map, ◌==◌, string_eq, nat_eq, ok, err, take, drop, length, length-take, find, arith,
  if◌then◌else◌,
}
use sysbox_fs.Prelude.{ap}
use sysbox_fs.Text.{join}
use sysbox_fs.Prelude.Int.{ℤ, pos}
use sysbox_fs.Prelude.Bytes.{Bytes}
use sysbox_fs.Prelude.Maps.{Map, lookup, insert, delete, lookup-insert, lookup-delete}
use sysbox_fs.State.Data.{get_data, set_data}
use sysbox_fs.Handler.Ints.{check_int_range, int_ltb, parse_int, write_max_int_to_fs}
use sysbox_fs.Handler.Sysctl.{sysctl_write}
use sysbox_fs.Handler.Sysctl.Net.{write_tcp_liberal}
use sysbox_fs.Handler.Store.{Node, write_rounds, write_fs, write_cntr_data, served}
use sysbox_fs.Handler.Store.Laws.{idle}
use sysbox_fs.Handler.PassThrough.{
  JoinedNss, all_nss, all_nss_but_user, FileEvent, FileAgent, read_with_ns, einval,
}
use sysbox_fs.Handler.PassThrough.Laws.{read_with_ns-repeats, read_with_ns-beyond_buffer}
use sysbox_fs.Handler.Kernel.{World, Request, kernel_write, kernel_read, range_of}
use sysbox_fs.Handler.Kernel.Laws.{kernel_write-isolated, kernel_write-in_range}
use sysbox_fs.Handler.Sysctl.Laws.{HostWrite, number, host_after, largest, host_after-largest}
use sysbox_fs.Handler.Sysctl.Net.Laws.{is_on, mode_after, mode_after-liberal}
use sysbox_fs.Handler.Db.{Radix, Handler, register_all, find_handler, walk_resources}
use sysbox_fs.Handler.Db.Laws.{RadixLaws, register_all-find, serves, with_service, or_else}

-- A sysctl: a write replaces the whole value.
abbrev sysctl : Node Bytes
sysctl = record {
  opens = λ f. true;
  read_at = λ f size offset. some (take size (drop offset f), length f == offset);
  write_at = λ f offset new. some new;
}

-- "9" and "100", with the newline.
abbrev nine : Bytes
nine = 57 ∷ 10 ∷ []

abbrev hundred : Bytes
hundred = 49 ∷ 48 ∷ 48 ∷ 10 ∷ []

abbrev reader : FileAgent Bytes
reader = record {
  lookup_node = λ g e. ok (record { name = ""; mode = 420; size = 0 });
  open_file = λ g e flags mode. ok true;
  read_file = λ g e offset size. ok (take size (drop offset g));
  write_file = λ g e offset new. ok new;
}

-- A host file that is read whole at first.
abbrev whole : Node Bytes
whole = record {
  opens = λ f. true;
  read_at = λ f size offset. if size == 65536 then some (f, true) else some (take size f, false);
  write_at = λ f offset new. some new;
}

abbrev file_max : String → Request
file_max path = record {
  path = path;
  name = "file-max";
  same_ns = true;
  no_cache = false;
  ignore_errors = false;
  shm_namespaced = true;
}

abbrev by_container : Bytes → HostWrite Bytes
by_container new = record {
  req = file_max "/proc/sys/fs/file-max";
  cache = [];
  inner = [];
  new = new;
}

host_after-largest_example :
    parse_int (
      host_after whole reader
        (λ f. f)
        (λ new. new)
        nine
        (by_container hundred ∷ by_container nine ∷ []))
    ≡ some (
        largest whole reader
          (λ f. f)
          (λ new. new)
          (pos 9)
          (by_container hundred ∷ by_container nine ∷ []))
unfolding parse_int
host_after-largest_example =
    host_after-largest whole reader (λ f. f) (λ new. new) (λ f. refl) (λ f. refl) (λ f new. refl)
      (λ new. refl) "file-max" (by_container hundred ∷ by_container nine ∷ []) nine (pos 9) refl
      refl refl

-- "0", "1" and "2", with the newline.
abbrev digit : ℕ → Bytes
digit n = (48 + n) ∷ 10 ∷ []

abbrev be_liberal : Bytes → HostWrite Bytes
be_liberal new = record {
  req = record (file_max "/proc/sys/net/netfilter/nf_conntrack_tcp_be_liberal") {
    name = "nf_conntrack_tcp_be_liberal";
  };
  cache = [];
  inner = [];
  new = new;
}

mode_after-liberal_example :
    is_on (
      number (
        mode_after whole reader
          (λ f. f)
          (λ new. new)
          (digit 0)
          (be_liberal (digit 2) ∷ be_liberal (digit 0) ∷ [])))
    ≡ (is_on (pos 0)
        || any (λ w. is_on (number w.new)) (be_liberal (digit 2) ∷ be_liberal (digit 0) ∷ []))
unfolding parse_int
mode_after-liberal_example =
    mode_after-liberal whole reader (λ f. f) (λ new. new) (λ f. refl) (λ f. refl) (λ f new. refl)
      (λ new. refl) (be_liberal (digit 2) ∷ be_liberal (digit 0) ∷ []) (digit 0) (pos 0) refl refl

-- The host stays in the mode of the first write.
stays_liberal :
    mode_after whole reader
      (λ f. f)
      (λ new. new)
      (digit 0)
      (be_liberal (digit 2) ∷ be_liberal (digit 0) ∷ [])
    ≡ digit 2
unfolding sysctl_write write_cntr_data write_fs write_rounds write_tcp_liberal parse_int
stays_liberal = refl

-- "2000", which another agent writes before the second read.
abbrev two_thousand : Bytes
two_thousand = 50 ∷ 48 ∷ 48 ∷ 48 ∷ 10 ∷ []

abbrev other_agent : ℕ → Bytes → Bytes
other_agent n f = if n == 3 then two_thousand else f

-- The second read has room for two bytes: "20" is less than 100, and 2000 is overwritten.
larger_value_lost :
    (write_fs sysctl other_agent true (some write_max_int_to_fs) 0 hundred nine).1 ≡ hundred
unfolding write_fs write_max_int_to_fs parse_int
larger_value_lost = refl

abbrev room : Bytes
room = 0 ∷ 0 ∷ 0 ∷ 0 ∷ []

read_with_ns-repeats_example :
    read_with_ns reader all_nss true false hundred (("/proc/sys/x", nine) ∷ []) "/proc/sys/x" 0 room
    ≡ (served 2 nine, ("/proc/sys/x", nine) ∷ [])
unfolding read_with_ns get_data set_data
read_with_ns-repeats_example =
    read_with_ns-repeats reader all_nss nine hundred [] (("/proc/sys/x", nine) ∷ []) "/proc/sys/x"
      room nine 2 (λ k size got e. ground (arith, length-take size k)) (ground arith) refl

abbrev pid_max : Request
pid_max = record {
  path = "/proc/sys/kernel/pid_max";
  name = "pid_max";
  same_ns = true;
  no_cache = false;
  ignore_errors = false;
  shm_namespaced = true;
}

abbrev world : World Bytes Bytes
world = record { host = nine; cache = []; inner = nine }

abbrev written : JoinedNss → Bytes → Bytes × Bytes → Bytes × Bytes
written all_nss new g = (g.0, new)
written all_nss_but_user new g = (new, g.1)

-- The sysctls of the host and of the container: an agent outside of the container's user namespace
-- writes the first ones.
abbrev writer : FileAgent (Bytes × Bytes)
writer = record {
  lookup_node = λ g e. ok (record { name = ""; mode = 420; size = 0 });
  open_file = λ g e flags mode. ok true;
  read_file = λ g e offset size. ok (take size (drop offset g.1));
  write_file = λ g e offset new. ok (written e.namespaces new g);
}

writer-apart :
    (g g' : Bytes × Bytes) (e : FileEvent) (offset : ℕ) (content : Bytes)
    → e.namespaces ≡ all_nss
    → writer.write_file g e offset content ≡ ok g'
    → g'.0 ≡ g.0
writer-apart g g' e offset content joined wrote = ground arith

abbrev msgmax : Request
msgmax = record pid_max { path = "/proc/sys/kernel/msgmax"; name = "msgmax" }

kernel_write-isolated_example :
    let w : World Bytes (Bytes × Bytes) = record {
      host = nine;
      cache = [];
      inner = (nine, nine);
    } in
    let w' = (kernel_write sysctl writer idle msgmax w 0 hundred).1 in
    (w'.host ≡ nine) × (w'.inner.0 ≡ nine) × ((false ≡ false) ⊎ (w'.inner ≡ (nine, nine)))
kernel_write-isolated_example =
    kernel_write-isolated sysctl writer idle (λ g. g.0) writer-apart msgmax
      (record { host = nine; cache = []; inner = (nine, nine) }) 0 hundred refl

kernel_write-in_range_example :
    (kernel_write sysctl reader idle pid_max world 0 hundred ≡ (err einval, world))
    ⊎ ((val : ℤ) × (parse_int hundred ≡ some val)
        × (int_ltb val (pos 1) ≡ false)
        × (int_ltb (pos 4194304) val ≡ false)
        × (let w' = (kernel_write sysctl reader idle pid_max world 0 hundred).1 in
            kernel_read sysctl reader idle pid_max w' 0 room ≡ (served 4 hundred, w'.cache)))
unfolding range_of
kernel_write-in_range_example =
    kernel_write-in_range sysctl reader idle pid_max world hundred room (pos 1) (pos 4194304) refl
      (ground arith) (ground arith)

-- The range is checked on the bytes of a write alone: "9" behind "4194304" is accepted.
abbrev seven_digits : Bytes
seven_digits = 52 ∷ 49 ∷ 57 ∷ 52 ∷ 51 ∷ 48 ∷ 52 ∷ []

range_bypassed :
    (kernel_write sysctl reader idle pid_max
      (kernel_write sysctl reader idle pid_max world 0 seven_digits).1
      7
      (57 ∷ [])).1.cache
    ≡ ("/proc/sys/kernel/pid_max", seven_digits ++ 57 ∷ []) ∷ []
unfolding kernel_write check_int_range parse_int write_cntr_data write_fs set_data
range_bypassed = refl

-- The tree as a list, without the search for prefixes.
abbrev list_radix : Radix Handler
list_radix = record {
  Tree = Map String Handler;
  empty = [];
  get = λ t path. lookup path t;
  insert = λ t path h. insert path h t;
  delete = λ t path. delete path t;
  longest_prefix = λ t path. none;
  entries = map (λ e. e.1);
}

list_laws : RadixLaws list_radix
unfolding lookup
list_laws = record {
  get-empty = λ path. refl;
  get-insert = λ t key path h. lookup-insert key path h t;
  get-delete = λ t key path. lookup-delete key path t;
}

abbrev handler : String → Bool → Handler
handler path enabled = record {
  name = path;
  path = path;
  enabled = enabled;
  emu_resources = record { key = "x"; enabled = true } ∷ [];
  has_service = false;
}

abbrev two_handlers : List Handler
two_handlers = handler "/proc/sys" true ∷ handler "/proc/swaps" false ∷ []

register_all-find_run :
    find_handler list_radix (register_all list_radix [] two_handlers) "/proc/swaps"
    ≡ or_else
        (find_handler list_radix [] "/proc/swaps")
        (with_service (find (serves "/proc/swaps") two_handlers))
register_all-find_run = register_all-find list_radix list_laws [] two_handlers "/proc/swaps"

-- The handlers behind a disabled one are missing.
behind_disabled :
    walk_resources
      (handler "/proc/sys" true ∷ handler "/proc/swaps" false ∷ handler "/sys" true ∷ [])
    ≡ "/proc/sys/x" ∷ []
unfolding walk_resources join
behind_disabled = refl

-- A file of eight bytes, of which a buffer of four has been read: the rest is not to be had.
second_half_lost :
    (read_with_ns reader all_nss true false (hundred ++ hundred) [] "/proc/sys/x" 4 room).0
    ≡ served 0 room
second_half_lost =
    ap (λ r. r.0)
      (read_with_ns-beyond_buffer reader all_nss (hundred ++ hundred) [] "/proc/sys/x" 4 room false
        (ground arith) (ground arith))
