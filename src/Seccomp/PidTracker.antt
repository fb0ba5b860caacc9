-- ===== src/Seccomp/PidTracker.antt =====
-- The tracker that lets one seccomp notification of a thread be processed at a time
-- (seccomp/pidTracker.go). Its callers run concurrently: a caller is at a stage between two atomic
-- actions, and a step is one action of one caller. `mu` makes track, untrack and a lookup atomic.
pub mod Invariant
pub mod Steps
pub mod Exclusion
pub mod Progress
use sysbox_fs.Prelude.{
  ℕ, zero, suc, ◌+◌, ◌-◌, Bool, true, false, Option, none, some, List, [], ◌∷◌, ◌++◌, ◌==◌, ◌≡◌,
  nat_eq, ltb, if◌then◌else◌,
}
use sysbox_fs.Prelude.Maps.{Map, lookup, insert, delete}

pub record PidData : Type 0 where
  pub refcnt : ℕ
  pub locked : Bool

-- The table leads to the heap of `pidData` objects, whose next free reference is `next`.
pub record PidTracker : Type 0 where
  pub pid_table : Map ℕ ℕ
  pub objects : Map ℕ PidData
  pub next : ℕ

-- A new entry, with the count 1.
unfoldable pub add_pid : PidTracker → ℕ → PidTracker
add_pid t pid = record {
  pid_table = insert pid t.next t.pid_table;
  objects = insert t.next (record { refcnt = 1; locked = false }) t.objects;
  next = t.next + 1;
}

-- `pd.refcnt++` of the object at `r`.
unfoldable pub add_ref : PidTracker → ℕ → Option PidData → PidTracker
add_ref t r none = t
add_ref t r (some d) = record t {
  objects = insert r (record d { refcnt = d.refcnt + 1 }) t.objects;
}

unfoldable pub track : PidTracker → ℕ → PidTracker
track t pid = elim (lookup pid t.pid_table) [
  | none ↦ add_pid t pid
  | some r ↦ add_ref t r (lookup r t.objects)
]

-- `pd.refcnt--`, and the removal of an entry that no one refers to.
unfoldable pub drop_ref : PidTracker → ℕ → ℕ → Option PidData → PidTracker
drop_ref t pid r none = t
drop_ref t pid r (some d) =
    let objects' = insert r (record d { refcnt = d.refcnt - 1 }) t.objects in
    if ltb 0 (d.refcnt - 1)
    then record t { objects = objects' }
    else record t { objects = objects'; pid_table = delete pid t.pid_table }

unfoldable pub untrack : PidTracker → ℕ → PidTracker
untrack t pid = elim (lookup pid t.pid_table) [
  | none ↦ t
  | some r ↦ drop_ref t pid r (lookup r t.objects)
]

-- `pd.mu` of the object at `r`, taken or given back.
unfoldable pub set_locked : PidTracker → ℕ → Option PidData → Bool → PidTracker
set_locked t r none b = t
set_locked t r (some d) b = record t { objects = insert r (record d { locked = b }) t.objects }

-- Where a caller is: after track; with the object that it found; with its lock; in Unlock, with the
-- lock of one object and the object that it found there; after the unlock. `unlocked` is a caller
-- that found no object in Lock; what it does next is not modelled.
pub data Stage : Type 0 where
  tracked : Stage
  found : ℕ → Stage
  holding : ℕ → Stage
  leaving : ℕ → ℕ → Stage
  released : Stage
  unlocked : Stage

pub record Caller : Type 0 where
  pub pid : ℕ
  pub stage : Stage

abbrev pub at : ℕ → Stage → Caller
at p s = record { pid = p; stage = s }

-- The atomic actions of Lock and Unlock.
pub data Step : PidTracker → List Caller → PidTracker → List Caller → Type 0 where
  start : (t : PidTracker) (cs : List Caller) (p : ℕ) → Step t cs (track t p) (at p tracked ∷ cs)
  look :
      (t : PidTracker) (xs ys : List Caller) (p r : ℕ)
      → lookup p t.pid_table ≡ some r
      → Step t (xs ++ at p tracked ∷ ys) t (xs ++ at p (found r) ∷ ys)
  look_in_vain :
      (t : PidTracker) (xs ys : List Caller) (p : ℕ)
      → lookup p t.pid_table ≡ none
      → Step t (xs ++ at p tracked ∷ ys) t (xs ++ at p unlocked ∷ ys)
  acquire :
      (t : PidTracker) (xs ys : List Caller) (p r : ℕ) (d : PidData)
      → lookup r t.objects ≡ some d
      → d.locked ≡ false
      → Step t
          (xs ++ at p (found r) ∷ ys)
          (set_locked t r (some d) true)
          (xs ++ at p (holding r) ∷ ys)
  look_again :
      (t : PidTracker) (xs ys : List Caller) (p r r' : ℕ)
      → lookup p t.pid_table ≡ some r'
      → Step t (xs ++ at p (holding r) ∷ ys) t (xs ++ at p (leaving r r') ∷ ys)
  look_again_in_vain :
      (t : PidTracker) (xs ys : List Caller) (p r : ℕ)
      → lookup p t.pid_table ≡ none
      → Step t (xs ++ at p (holding r) ∷ ys) t (xs ++ ys)
  release :
      (t : PidTracker) (xs ys : List Caller) (p r r' : ℕ)
      → Step t
          (xs ++ at p (leaving r r') ∷ ys)
          (set_locked t r' (lookup r' t.objects) false)
          (xs ++ at p released ∷ ys)
  finish :
      (t : PidTracker) (xs ys : List Caller) (p : ℕ)
      → Step t (xs ++ at p released ∷ ys) (untrack t p) (xs ++ ys)

-- Steps from the empty tracker without callers.
pub data Reachable : PidTracker → List Caller → Type 0 where
  initial : Reachable (record { pid_table = []; objects = []; next = 0 }) []
  then_step :
      {t t' : PidTracker} {cs cs' : List Caller}
      → Reachable t cs
      → Step t cs t' cs'
      → Reachable t' cs'
