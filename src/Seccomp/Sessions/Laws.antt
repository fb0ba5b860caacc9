-- ===== src/Seccomp/Sessions/Laws.antt =====
-- The descriptors that are closed.
use sysbox_fs.Prelude.{
  ℕ, ◌+◌, ◌≤◌, ◌≡◌, subst, true, inl, inr, Option, [], ◌∷◌, ◌++◌, ◌==◌, nat_eq, string_eq, arith,
  Bool-cases,
}
use sysbox_fs.Prelude.Maps.{lookup, has_key}
use sysbox_fs.Seccomp.Sessions.{
  SeccompSession, SessionTables, or_nil, outlived, seccomp_session_add, seccomp_session_delete,
  count, Monitor, SessionStep, accepts, ends, Runs, rests, moves, started,
}
use sysbox_fs.Seccomp.Sessions.Counts.{
  table_fds, count-insert, count-delete, count-session_fds, count-close_all,
}

-- Every descriptor of the tables is open, and stands there once at most.
abbrev pub IsOwned : Monitor → Type 0
IsOwned m =
    (x : ℕ)
    → (count x (table_fds m.tables.by_container) ≤ count x m.open_fds) × (count x m.open_fds ≤ 1)

add-count :
    (x : ℕ) (t : SessionTables) (s : SeccompSession)
    → count x (table_fds (seccomp_session_add true t s).by_container)
      ≤ count x (table_fds t.by_container) + count x (s.fd ∷ [])
unfolding seccomp_session_add
add-count x t s =
    let old = or_nil (lookup s.cntr_id t.by_container) in
    elim (Bool-cases (has_key s.pid t.container_of)) [
      | inl known ↦ ground arith
      | inr new ↦ ground (
        arith,
        count-insert x s.cntr_id (old ++ s ∷ []) t.by_container,
        count-session_fds x old s,
      )
    ]

-- What is closed leaves the tables.
delete-count :
    (x : ℕ) (init_pid : Option ℕ) (t : SessionTables) (s : SeccompSession)
    → let d = seccomp_session_delete true init_pid t s in
      count x (table_fds d.1.by_container) + count x d.0 ≤ count x (table_fds t.by_container)
unfolding seccomp_session_delete
delete-count x init_pid t s = elim (Bool-cases (outlived init_pid s.pid)) [
  | inl other ↦ ground arith
  | inr gone ↦ ground (arith, count-delete x s.cntr_id t.by_container)
]

pub step-IsOwned : {m n : Monitor} → SessionStep m n → IsOwned m → IsOwned n
step-IsOwned (accepts m s fresh) owned = λ x.
    let grown = add-count x m.tables s in
    elim (Bool-cases (s.fd == x)) [
      | inr other ↦ ground (arith, owned x)
      | inl same ↦
          let none_open : count x m.open_fds ≡ 0 =
            subst (λ y. count y m.open_fds ≡ 0) ((nat_eq.equal_iff s.fd x).0 same) fresh in
          ground (arith, owned x)
    ]
step-IsOwned (ends m s init_pid) owned = λ x. ground (
  arith,
  owned x,
  delete-count x init_pid m.tables s,
  count-close_all x (seccomp_session_delete true init_pid m.tables s).0 m.open_fds,
)

pub run-IsOwned : {m n : Monitor} → Runs m n → IsOwned m → IsOwned n
run-IsOwned (rests m) owned = owned
run-IsOwned (moves k run step) owned = step-IsOwned step (run-IsOwned run owned)

started-IsOwned : IsOwned started
started-IsOwned = λ x. (omega arith, omega arith)

-- Where sessions are kept until the container exits, after any run of the connection handlers from
-- empty tables, the descriptors that the end of a session closes are open, and none is closed twice.
pub closes_open :
    (m : Monitor) (s : SeccompSession) (init_pid : Option ℕ) (x : ℕ)
    → Runs started m
    → (count x (seccomp_session_delete true init_pid m.tables s).0 ≤ count x m.open_fds)
      × (count x m.open_fds ≤ 1)
closes_open m s init_pid x run =
    ground (arith, run-IsOwned run started-IsOwned x, delete-count x init_pid m.tables s)

-- A descriptor that is open and stands in no table.
abbrev pub IsLeaked : ℕ → Monitor → Type 0
IsLeaked fd m = (count fd (table_fds m.tables.by_container) ≡ 0) × (count fd m.open_fds ≡ 1)

step-IsLeaked : (fd : ℕ) {m n : Monitor} → SessionStep m n → IsLeaked fd m → IsLeaked fd n
step-IsLeaked fd (accepts m s fresh) (unlisted, opened) =
    let grown = add-count fd m.tables s in
    elim (Bool-cases (s.fd == fd)) [
      | inr other ↦ ground arith
      | inl same ↦
          let none_open : count fd m.open_fds ≡ 0 =
            subst (λ y. count y m.open_fds ≡ 0) ((nat_eq.equal_iff s.fd fd).0 same) fresh in
          absurd (ground arith)
    ]
step-IsLeaked fd (ends m s init_pid) (unlisted, opened) = ground (
  arith,
  delete-count fd init_pid m.tables s,
  count-close_all fd (seccomp_session_delete true init_pid m.tables s).0 m.open_fds,
)

run-IsLeaked : (fd : ℕ) {m n : Monitor} → Runs m n → IsLeaked fd m → IsLeaked fd n
run-IsLeaked fd (rests m) leaked = leaked
run-IsLeaked fd (moves k run step) leaked = step-IsLeaked fd step (run-IsLeaked fd run leaked)

-- A session of a thread that is registered already is not recorded, and no run closes its
-- descriptor: it stays open.
pub unrecorded_stays_open :
    (m n : Monitor) (s : SeccompSession)
    → Runs started m
    → count s.fd m.open_fds ≡ 0
    → has_key s.pid m.tables.container_of ≡ true
    → Runs (record { tables = seccomp_session_add true m.tables s; open_fds = s.fd ∷ m.open_fds }) n
    → count s.fd n.open_fds ≡ 1
unfolding seccomp_session_add
unrecorded_stays_open m n s run fresh known rest =
    let owned = run-IsOwned run started-IsOwned s.fd in
    let leaked : IsLeaked s.fd
        (record { tables = seccomp_session_add true m.tables s; open_fds = s.fd ∷ m.open_fds }) =
      (ground arith, ground arith) in
    (run-IsLeaked s.fd rest leaked).1
