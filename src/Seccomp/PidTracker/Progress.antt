-- ===== src/Seccomp/PidTracker/Progress.antt =====
-- The tracker's locks never block all callers.
use sysbox_fs.Prelude.{
  ℕ, ◌<◌, ◌≤◌, ◌≡◌, refl, true, false, some, List, [], ◌∷◌, ◌++◌, nat_eq, arith, inl, inr,
  Bool-cases, ltb,
}
use sysbox_fs.Prelude.Maps.{lookup}
use sysbox_fs.Seccomp.PidTracker.{
  PidTracker, untrack, set_locked, Stage, tracked, found, holding, leaving, released, unlocked,
  Caller, at,
}
use sysbox_fs.Seccomp.PidTracker.Invariant.{held, holders, IsSound, AllFit-middle}
use sysbox_fs.Seccomp.PidTracker.{Step, look, acquire, look_again, release, finish, Reachable}
use sysbox_fs.Seccomp.PidTracker.Exclusion.{has_lock, reachable-IsSound}
use sysbox_fs.Prelude.{length, length-append, subst, sym, ap}

-- Some caller that is there can take a step.
abbrev pub CanMove : PidTracker → List Caller → Type 0
CanMove t cs = (t' : PidTracker) × (cs' : List Caller) × Step t cs t' cs' × (length cs' ≤ length cs)

length-middle :
    (xs ys : List Caller) (c c' : Caller) → length (xs ++ c' ∷ ys) ≤ length (xs ++ c ∷ ys)
length-middle xs ys c c' = omega (arith, length-append xs (c ∷ ys), length-append xs (c' ∷ ys))

length-less : (xs ys : List Caller) (c : Caller) → length (xs ++ ys) ≤ length (xs ++ c ∷ ys)
length-less xs ys c = omega (arith, length-append xs (c ∷ ys), length-append xs ys)

-- A caller with the lock is never blocked.
inside-CanMove :
    (t : PidTracker) (xs ys : List Caller) (p : ℕ) (s : Stage)
    → IsSound t (xs ++ at p s ∷ ys)
    → has_lock s ≡ true
    → CanMove t (xs ++ at p s ∷ ys)
inside-CanMove t xs ys p tracked sound h = absurd (ground arith)
inside-CanMove t xs ys p (found r) sound h = absurd (ground arith)
inside-CanMove t xs ys p (holding r) sound h =
    let ((r', here, knows), others) =
      AllFit-middle t.pid_table xs ys (at p (holding r)) sound.fits in
    (t, xs ++ at p (leaving r r') ∷ ys, look_again t xs ys p r r' here, length-middle xs ys _ _)
inside-CanMove t xs ys p (leaving r r') sound h = (
  set_locked t r' (lookup r' t.objects) false,
  xs ++ at p released ∷ ys,
  release t xs ys p r r',
  length-middle xs ys _ _,
)
inside-CanMove t xs ys p released sound h = absurd (ground arith)
inside-CanMove t xs ys p unlocked sound h = absurd (ground arith)

held-has_lock : (r : ℕ) (s : Stage) → 0 < held r s → has_lock s ≡ true
held-has_lock r tracked h = absurd (omega arith)
held-has_lock r (found x) h = absurd (omega arith)
held-has_lock r (holding x) h = refl
held-has_lock r (leaving x y) h = refl
held-has_lock r released h = absurd (omega arith)
held-has_lock r unlocked h = absurd (omega arith)

-- The caller with the lock of an object that someone held.
find-holder :
    (r : ℕ) (cs : List Caller)
    → 0 < holders r cs
    → (xs ys : List Caller) × (c : Caller) × (cs ≡ xs ++ c ∷ ys) × (has_lock c.stage ≡ true)
find-holder r [] h = absurd (omega arith)
find-holder r (c ∷ cs) h = elim (Bool-cases (ltb 0 (held r c.stage))) [
  | inl here ↦ ([], cs, c, refl, held-has_lock r c.stage (ground arith))
  | inr there ↦
      let (xs, ys, c', e, inside) = find-holder r cs (ground arith) in
      (c ∷ xs, ys, c', ap (◌∷◌ c) e, inside)
]

found-CanMove :
    (t : PidTracker) (cs : List Caller) (p r : ℕ)
    → IsSound t (at p (found r) ∷ cs)
    → CanMove t (at p (found r) ∷ cs)
found-CanMove t cs p r sound =
    let ((r', here, knows), others) = sound.fits in
    let (d, obj, num, some_caller, locks) = sound.counts p r (ground arith) in
    elim (Bool-cases d.locked) [
      | inr free ↦ (
        set_locked t r (some d) true,
        at p (holding r) ∷ cs,
        acquire t [] cs p r d obj free,
        omega arith,
      )
      | inl taken ↦
          let (xs, ys, c, e, inside) = find-holder r (at p (found r) ∷ cs) (ground arith) in
          subst (CanMove t) (sym e)
            (inside-CanMove t xs ys c.pid c.stage (subst (IsSound t) e sound) inside)
    ]

first-CanMove :
    (t : PidTracker) (cs : List Caller) (p : ℕ) (s : Stage)
    → IsSound t (at p s ∷ cs)
    → CanMove t (at p s ∷ cs)
first-CanMove t cs p tracked sound =
    let ((r, here, knows), others) = sound.fits in
    (t, at p (found r) ∷ cs, look t [] cs p r here, omega arith)
first-CanMove t cs p (found r) sound = found-CanMove t cs p r sound
first-CanMove t cs p (holding r) sound = inside-CanMove t [] cs p (holding r) sound refl
first-CanMove t cs p (leaving r r') sound = inside-CanMove t [] cs p (leaving r r') sound refl
first-CanMove t cs p released sound = (untrack t p, cs, finish t [] cs p, omega arith)
first-CanMove t cs p unlocked sound =
    let ((r, here, knows), others) = sound.fits in absurd (ground arith)

-- In every interleaving, as long as there are callers, one of them can take its next action: they
-- never all wait for each other.
pub no_deadlock :
    (t : PidTracker) (c : Caller) (cs : List Caller) → Reachable t (c ∷ cs) → CanMove t (c ∷ cs)
no_deadlock t c cs run = first-CanMove t cs c.pid c.stage (reachable-IsSound t (c ∷ cs) run)
