-- ===== src/Tests/TrackerRuns.antt =====
-- Two notifications of one thread at the tracker: both have come in, and one has the lock.
use sysbox_fs.Prelude.{ℕ, ◌<◌, ◌≤◌, ◌≡◌, ◌⊎◌, refl, false, true, none, some, [], ◌∷◌, nat_eq}
use sysbox_fs.Prelude.Maps.{lookup, insert}
use sysbox_fs.Seccomp.PidTracker.{
  PidData, PidTracker, track, add_pid, add_ref, set_locked, at, tracked, found, holding, start,
  look, acquire, Reachable, initial, then_step,
}
use sysbox_fs.Seccomp.PidTracker.Exclusion.{inside, one_inside, refcnt_exact}
use sysbox_fs.Seccomp.PidTracker.Invariant.{count}
use sysbox_fs.Seccomp.PidTracker.Progress.{CanMove, no_deadlock}

abbrev empty_tracker : PidTracker
empty_tracker = record { pid_table = []; objects = []; next = 0 }

abbrev both_in : PidTracker
both_in = track (track empty_tracker 7) 7

abbrev counted : PidData
counted = record { refcnt = 2; locked = false }

abbrev one_has_it : PidTracker
one_has_it = set_locked both_in 0 (some counted) true

both_tracked : Reachable both_in (at 7 tracked ∷ at 7 tracked ∷ [])
both_tracked =
    then_step (then_step initial (start empty_tracker [] 7))
      (start (track empty_tracker 7) (at 7 tracked ∷ []) 7)

one_found : Reachable both_in (at 7 (found 0) ∷ at 7 tracked ∷ [])
unfolding track add_pid add_ref lookup insert
one_found = then_step both_tracked (look both_in [] (at 7 tracked ∷ []) 7 0 refl)

one_locked : Reachable one_has_it (at 7 (holding 0) ∷ at 7 tracked ∷ [])
unfolding track add_pid add_ref lookup insert
one_locked = then_step one_found (acquire both_in [] (at 7 tracked ∷ []) 7 0 counted refl refl)

one_inside_example : inside 7 (at 7 (holding 0) ∷ at 7 tracked ∷ []) ≤ 1
one_inside_example = one_inside one_has_it (at 7 (holding 0) ∷ at 7 tracked ∷ []) one_locked 7

refcnt_exact_example :
    ((lookup 7 both_in.pid_table ≡ none) × (count 7 (at 7 tracked ∷ at 7 tracked ∷ []) ≡ 0))
    ⊎ ((r : ℕ) × (d : PidData) × (lookup 7 both_in.pid_table ≡ some r)
        × (lookup r both_in.objects ≡ some d)
        × (d.refcnt ≡ count 7 (at 7 tracked ∷ at 7 tracked ∷ []))
        × (0 < count 7 (at 7 tracked ∷ at 7 tracked ∷ [])))
refcnt_exact_example = refcnt_exact both_in (at 7 tracked ∷ at 7 tracked ∷ []) 7 both_tracked

no_deadlock_example : CanMove one_has_it (at 7 (holding 0) ∷ at 7 tracked ∷ [])
no_deadlock_example = no_deadlock one_has_it (at 7 (holding 0)) (at 7 tracked ∷ []) one_locked
