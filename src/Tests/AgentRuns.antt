-- ===== src/Tests/AgentRuns.antt =====
-- The agent at work, and the sessions of two threads.
use sysbox_fs.Prelude.{
  ℕ, ◌≤◌, String, ◌≡◌, refl, subst, ==-refl, Bool, true, false, not, none, some, List, [], ◌∷◌,
  ◌==◌, string_eq, Result, ok, err, arith, inl, inr, Bool-cases, if◌then◌else◌,
}
use sysbox_fs.Prelude.Maps.{insert, has_key}
use sysbox_fs.Mount.Flags.{has_flag, ms_remount}
use sysbox_fs.Seccomp.Context.{MountPayload}
use sysbox_fs.Nsenter.Mounts.{Kernel, failed_with, process_mount_syscall_request}
use sysbox_fs.Nsenter.Mounts.Laws.{
  transaction, unless_refused, process_mount_syscall_request-transaction,
}
use sysbox_fs.Nsenter.Personality.{Personality, Calls, adjust_personality}
use sysbox_fs.Seccomp.Sessions.{
  SeccompSession, seccomp_session_add, seccomp_session_delete, count, Monitor, accepts, Runs, rests,
  moves, started,
}
use sysbox_fs.Seccomp.Sessions.Laws.{closes_open, unrecorded_stays_open}
use sysbox_fs.Tests.Fixtures.{request}

-- The mounts as a stack of targets; nothing can be mounted on /none.
abbrev put : List String → MountPayload → Result ℕ (List String)
put s p = if p.target == "/none" then err 2 else ok (p.target ∷ s)

abbrev take_off : List String → String → ℕ → Result ℕ (List String)
take_off [] target flags = err 22
take_off (t ∷ s) target flags = if t == target then ok s else err 22

abbrev stack : Kernel (List String)
stack = record { mount = put; unmount = take_off }

abbrev is_new : MountPayload → Bool
is_new p = not (has_flag ms_remount p.flags)

new-plain : (q : MountPayload) → is_new q ≡ true → has_flag ms_remount q.flags ≡ false
new-plain q h = ground arith

taken_back :
    (q : MountPayload) (s s' : List String)
    → is_new q ≡ true
    → put s q ≡ ok s'
    → take_off s' q.target 0 ≡ ok s
taken_back q s s' new h = elim (Bool-cases (q.target == "/none")) [
  | inl bad ↦ absurd (ground arith)
  | inr good ↦
      let pushed : q.target ∷ s ≡ s' = ground arith in
      subst (λ m. take_off m q.target 0 ≡ ok s) pushed (ground (arith, ==-refl q.target))
]

abbrev three : List MountPayload
three = request "" "/b" "" 0 ∷ request "" "/none" "" 0 ∷ []

process_mount_syscall_request-transaction_example :
    process_mount_syscall_request stack none (request "" "/a" "" 0 ∷ three) ("/" ∷ [])
    ≡ unless_refused stack none
        ("/" ∷ [])
        (transaction stack (request "" "/a" "" 0 ∷ three) ("/" ∷ []))
unfolding has_flag
process_mount_syscall_request-transaction_example =
    process_mount_syscall_request-transaction stack is_new new-plain taken_back none
      (request "" "/a" "" 0) three ("/" ∷ []) refl

-- The two mounts before the failure are taken back.
rolled_back :
    process_mount_syscall_request stack none (request "" "/a" "" 0 ∷ three) ("/" ∷ [])
    ≡ (failed_with 2, "/" ∷ [])
unfolding process_mount_syscall_request has_flag
rolled_back = refl

abbrev calls : Calls
calls = record {
  chdir = λ p cwd. none;
  chroot = λ p root. none;
  setresgid = λ p gid. none;
  setresuid = λ p uid. none;
  caps_after_setresuid = λ p uid. (0, 0);
  apply_caps = λ p caps. none;
}

abbrev agent_itself : Personality
agent_itself = record { cwd = "/"; root = "/"; gid = 0; uid = 0; caps = (5, 5) }

abbrev user : Personality
user = record { cwd = "/home"; root = "/"; gid = 100; uid = 1000; caps = (1, 0) }

-- The agent becomes the user.
becomes_user : adjust_personality calls user agent_itself ≡ ok user
unfolding adjust_personality
becomes_user = refl

abbrev init_session : SeccompSession
init_session = record { pid = 10; fd = 5; pidfd = 0; cntr_id = "a" }

abbrev later_session : SeccompSession
later_session = record { pid = 10; fd = 6; pidfd = 0; cntr_id = "a" }

abbrev one_session : Monitor
one_session = record {
  tables = seccomp_session_add true started.tables init_session;
  open_fds = 5 ∷ [];
}

one_accepted : Runs started one_session
one_accepted = moves one_session (rests started) (accepts started init_session refl)

closes_open_example :
    (count 5 (seccomp_session_delete true (some 10) one_session.tables init_session).0 ≤ 1)
    × (1 ≤ 1)
closes_open_example = closes_open one_session init_session (some 10) 5 one_accepted

abbrev unrecorded : Monitor
unrecorded = record {
  tables = seccomp_session_add true one_session.tables later_session;
  open_fds = 6 ∷ one_session.open_fds;
}

unrecorded_stays_open_run : count 6 unrecorded.open_fds ≡ 1
unfolding has_key seccomp_session_add insert
unrecorded_stays_open_run =
    unrecorded_stays_open one_session unrecorded later_session one_accepted refl refl
      (rests unrecorded)
