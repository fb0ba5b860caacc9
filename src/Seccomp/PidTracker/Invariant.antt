-- ===== src/Seccomp/PidTracker/Invariant.antt =====
-- What holds of the tracker and its callers at any time.
use sysbox_fs.Prelude.{
  ℕ, ◌+◌, ◌<◌, ◌≡◌, ◌≢◌, refl, true, false, none, some, List, [], ◌∷◌, ◌++◌, ◌==◌, nat_eq,
  if◌then◌else◌, arith, inl, inr, Bool-cases,
}
use sysbox_fs.Prelude.Maps.{Map, lookup}
use sysbox_fs.Seccomp.PidTracker.{
  PidData, PidTracker, Stage, tracked, found, holding, leaving, released, unlocked, Caller,
}

-- The callers of a thread ID.
abbrev pub count : ℕ → List Caller → ℕ
count p [] = 0
count p (c ∷ cs) = (if c.pid == p then 1 else 0) + count p cs

abbrev pub held : ℕ → Stage → ℕ
held r tracked = 0
held r (found r') = 0
held r (holding r') = if r' == r then 1 else 0
held r (leaving r' r'') = if r' == r then 1 else 0
held r released = 0
held r unlocked = 0

-- The callers with the lock of the object at `r`.
abbrev pub holders : ℕ → List Caller → ℕ
holders r [] = 0
holders r (c ∷ cs) = held r c.stage + holders r cs

pub count-middle :
    (p : ℕ) (xs ys : List Caller) (c : Caller)
    → count p (xs ++ c ∷ ys) ≡ (if c.pid == p then 1 else 0) + count p (xs ++ ys)
count-middle p [] ys c = refl
count-middle p (x ∷ xs) ys c = omega (arith, count-middle p xs ys c)

pub holders-middle :
    (r : ℕ) (xs ys : List Caller) (c : Caller)
    → holders r (xs ++ c ∷ ys) ≡ held r c.stage + holders r (xs ++ ys)
holders-middle r [] ys c = refl
holders-middle r (x ∷ xs) ys c = omega (arith, holders-middle r xs ys c)

-- The objects that a caller at this stage knows are the one at `r`.
abbrev pub Knows : ℕ → Stage → Type 0
Knows r tracked = Unit
Knows r (found r') = r' ≡ r
Knows r (holding r') = r' ≡ r
Knows r (leaving r' r'') = (r' ≡ r) × (r'' ≡ r)
Knows r released = Unit
Knows r unlocked = true ≡ false

-- The thread ID of a caller is in the table, with the object that the caller knows.
abbrev pub Fits : Map ℕ ℕ → Caller → Type 0
Fits table c = (r : ℕ) × (lookup c.pid table ≡ some r) × Knows r c.stage

abbrev pub AllFit : Map ℕ ℕ → List Caller → Type 0
AllFit table [] = Unit
AllFit table (c ∷ cs) = Fits table c × AllFit table cs

-- The count of an object is that of the callers, and its lock is held by one or none of them.
abbrev pub Counts : PidTracker → List Caller → ℕ → ℕ → Type 0
Counts t cs p r =
    (d : PidData) × (lookup r t.objects ≡ some d)
    × (d.refcnt ≡ count p cs)
    × (0 < d.refcnt)
    × (holders r cs ≡ (if d.locked then 1 else 0))

pub record IsSound (t : PidTracker) (cs : List Caller) : Type 0 where
  pub fits : AllFit t.pid_table cs
  pub counts : (p r : ℕ) → lookup p t.pid_table ≡ some r → Counts t cs p r
  pub fresh : (p r : ℕ) → lookup p t.pid_table ≡ some r → r < t.next
  pub apart : (p q r : ℕ) → lookup p t.pid_table ≡ some r → lookup q t.pid_table ≡ some r → p ≡ q

pub AllFit-middle :
    (table : Map ℕ ℕ) (xs ys : List Caller) (c : Caller)
    → AllFit table (xs ++ c ∷ ys)
    → Fits table c × AllFit table (xs ++ ys)
AllFit-middle table [] ys c h = h
AllFit-middle table (x ∷ xs) ys c (first, rest) =
    let (here, others) = AllFit-middle table xs ys c rest in (here, (first, others))

pub AllFit-insert :
    (table : Map ℕ ℕ) (xs ys : List Caller) (c : Caller)
    → Fits table c
    → AllFit table (xs ++ ys)
    → AllFit table (xs ++ c ∷ ys)
AllFit-insert table [] ys c here h = (here, h)
AllFit-insert table (x ∷ xs) ys c here (first, rest) =
    (first, AllFit-insert table xs ys c here rest)

-- A table that has the entries of the callers' threads still.
pub AllFit-table :
    (table table' : Map ℕ ℕ) (cs : List Caller)
    → ((p r : ℕ) → lookup p table ≡ some r → 0 < count p cs → lookup p table' ≡ some r)
    → AllFit table cs
    → AllFit table' cs
AllFit-table table table' [] same h = tt
AllFit-table table table' (c ∷ cs) same ((r, there, knows), rest) = (
  (r, same c.pid r there (ground arith), knows),
  AllFit-table table table' cs (λ p r e h. same p r e (ground arith)) rest,
)

pub held-other : (r r' : ℕ) (s : Stage) → Knows r' s → (r' == r) ≡ false → held r s ≡ 0
held-other r r' tracked k ne = refl
held-other r r' (found x) k ne = refl
held-other r r' (holding x) k ne = ground arith
held-other r r' (leaving x y) (k, j) ne = ground arith
held-other r r' released k ne = refl
held-other r r' unlocked k ne = refl

-- No caller has the lock of an object that is not in the table.
pub holders-none :
    (table : Map ℕ ℕ) (r : ℕ) (cs : List Caller)
    → AllFit table cs
    → ((p : ℕ) → lookup p table ≢ some r)
    → holders r cs ≡ 0
holders-none table r [] h away = refl
holders-none table r (c ∷ cs) ((r', there, knows), rest) away = elim (Bool-cases (r' == r)) [
  | inl same ↦ absurd (away c.pid (ground arith))
  | inr other ↦
      omega (arith, held-other r r' c.stage knows other, holders-none table r cs rest away)
]

-- No caller's thread ID is missing in the table.
pub count-none :
    (table : Map ℕ ℕ) (p : ℕ) (cs : List Caller)
    → AllFit table cs
    → lookup p table ≡ none
    → count p cs ≡ 0
count-none table p [] h gone = refl
count-none table p (c ∷ cs) ((r, there, knows), rest) gone =
    ground (arith, count-none table p cs rest gone)
