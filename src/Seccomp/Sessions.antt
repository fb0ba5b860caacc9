-- ===== src/Seccomp/Sessions.antt =====
-- The seccomp sessions (seccompSessionAdd, seccompSessionDelete and connHandler of
-- seccomp/tracer.go). One call is one step, as the lock of the tables makes it.
pub mod Counts
pub mod Laws
use sysbox_fs.Prelude.{
  ℕ, suc, String, ◌≡◌, Bool, true, false, ◌||◌, not, Option, none, some, List, [], ◌∷◌, ◌++◌, map,
  ◌==◌, nat_eq, string_eq, if◌then◌else◌,
}
use sysbox_fs.Prelude.Maps.{Map, lookup, insert, delete, has_key}

-- The thread of the tracee, its seccomp-fd, its pidfd or 0, and its container.
pub record SeccompSession : Type 0 where
  pub pid : ℕ
  pub fd : ℕ
  pub pidfd : ℕ
  pub cntr_id : String

-- The sessions of each container, and the container of each thread.
pub record SessionTables : Type 0 where
  pub by_container : Map String (List SeccompSession)
  pub container_of : Map ℕ String

abbrev pub no_sessions : SessionTables
no_sessions = record { by_container = []; container_of = [] }

-- A missing entry of a map of slices is nil.
abbrev pub or_nil : Option (List SeccompSession) → List SeccompSession
or_nil none = []
or_nil (some ss) = ss

-- `on_exit` is closeSeccompOnContExit.
unfoldable pub seccomp_session_add : Bool → SessionTables → SeccompSession → SessionTables
seccomp_session_add on_exit t s =
    if not on_exit || has_key s.pid t.container_of then t else record {
      by_container =
          insert s.cntr_id (or_nil (lookup s.cntr_id t.by_container) ++ s ∷ []) t.by_container;
      container_of = insert s.pid s.cntr_id t.container_of;
    }

abbrev pub session_fds : List SeccompSession → List ℕ
session_fds ss = map (λ s. s.fd) ss

-- Whether the container, if it is there, has another init process than the thread.
unfoldable pub outlived : Option ℕ → ℕ → Bool
outlived none pid = false
outlived (some init_pid) pid = not (pid == init_pid)

-- The descriptors that are closed, and the tables. `init_pid` is that of the container, or `none` if
-- the container is gone.
unfoldable pub seccomp_session_delete :
    Bool → Option ℕ → SessionTables → SeccompSession → List ℕ × SessionTables
unfolding outlived
seccomp_session_delete false init_pid t s =
    (if s.pidfd == 0 then s.fd ∷ [] else s.fd ∷ s.pidfd ∷ [], t)
seccomp_session_delete true init_pid t s =
    if outlived init_pid s.pid
    then ([], record t { container_of = delete s.pid t.container_of })
    else (
      session_fds (or_nil (lookup s.cntr_id t.by_container)),
      record {
        by_container = delete s.cntr_id t.by_container;
        container_of = delete s.pid t.container_of;
      },
    )

abbrev pub count : ℕ → List ℕ → ℕ
count x [] = 0
count x (y ∷ ys) = if y == x then suc (count x ys) else count x ys

-- A descriptor is closed once for each time that it is listed.
abbrev pub close_one : ℕ → List ℕ → List ℕ
close_one x [] = []
close_one x (y ∷ ys) = if y == x then ys else y ∷ close_one x ys

abbrev pub close_all : List ℕ → List ℕ → List ℕ
close_all [] open_fds = open_fds
close_all (x ∷ xs) open_fds = close_all xs (close_one x open_fds)

-- The tables, and the open seccomp-fds of the program.
pub record Monitor : Type 0 where
  pub tables : SessionTables
  pub open_fds : List ℕ

-- The steps of the connection handlers, where sessions are kept until the container exits: a session
-- whose descriptor the kernel has just opened is added; one is deleted, whatever its container is by
-- then.
pub data SessionStep : Monitor → Monitor → Type 0 where
  accepts :
      (m : Monitor) (s : SeccompSession)
      → count s.fd m.open_fds ≡ 0
      → SessionStep m
          (record { tables = seccomp_session_add true m.tables s; open_fds = s.fd ∷ m.open_fds })
  ends :
      (m : Monitor) (s : SeccompSession) (init_pid : Option ℕ)
      → SessionStep m (record {
        tables = (seccomp_session_delete true init_pid m.tables s).1;
        open_fds = close_all (seccomp_session_delete true init_pid m.tables s).0 m.open_fds;
      })

pub data Runs : Monitor → Monitor → Type 0 where
  rests : (m : Monitor) → Runs m m
  moves : {m n : Monitor} (k : Monitor) → Runs m n → SessionStep n k → Runs m k

abbrev pub started : Monitor
started = record { tables = no_sessions; open_fds = [] }
