-- ===== src/Seccomp/PidTracker/Exclusion.antt =====
-- The last step of a caller, and what the tracker is for: one caller at a time has the lock of a
-- thread ID.
use sysbox_fs.Prelude.{
  ℕ, ◌+◌, ◌-◌, ◌<◌, ◌≤◌, ◌≡◌, ◌≢◌, ◌⊎◌, ◌&&◌, refl, Bool, true, false, none, some, List, [], ◌∷◌,
  ◌++◌, ◌==◌, nat_eq, if◌then◌else◌, arith, inl, inr, Option-cases, Bool-cases, ltb,
}
use sysbox_fs.Prelude.Maps.{Map, lookup, insert, delete, lookup-insert, lookup-delete}
use sysbox_fs.Seccomp.PidTracker.{
  PidData, PidTracker, drop_ref, untrack, Stage, tracked, found, holding, leaving, released,
  unlocked, Caller, at,
}
use sysbox_fs.Seccomp.PidTracker.Invariant.{
  count, held, holders, count-middle, holders-middle, Knows, AllFit, Counts, IsSound, AllFit-middle,
  AllFit-table, count-none,
}
use sysbox_fs.Seccomp.PidTracker.{
  Step, start, look, look_in_vain, acquire, look_again, look_again_in_vain, release, finish,
  Reachable, initial, then_step,
}
use sysbox_fs.Seccomp.PidTracker.Steps.{
  track-IsSound, stage-IsSound, acquire-IsSound, release-IsSound,
}

dropped : PidData → PidData
dropped d = record d { refcnt = d.refcnt - 1 }

module _ (t : PidTracker) (p r : ℕ) (d : PidData) (here : lookup p t.pid_table ≡ some r)
    (obj : lookup r t.objects ≡ some d) where
  untrack-kept :
      ltb 0 (d.refcnt - 1) ≡ true
      → untrack t p ≡ record t { objects = insert r (dropped d) t.objects }
  unfolding untrack drop_ref dropped
  untrack-kept more = ground arith

  untrack-last :
      ltb 0 (d.refcnt - 1) ≡ false
      → untrack t p
        ≡ record t { objects = insert r (dropped d) t.objects; pid_table = delete p t.pid_table }
  unfolding untrack drop_ref dropped
  untrack-last last = ground arith

module _ (t : PidTracker) (xs ys : List Caller) (p : ℕ)
    (sound : IsSound t (xs ++ at p released ∷ ys)) where
  kept-Counts :
      (r : ℕ) (d : PidData)
      → lookup p t.pid_table ≡ some r
      → lookup r t.objects ≡ some d
      → ltb 0 (d.refcnt - 1) ≡ true
      → (q r' : ℕ) → lookup q t.pid_table ≡ some r'
      → Counts (record t { objects = insert r (dropped d) t.objects }) (xs ++ ys) q r'
  unfolding dropped
  kept-Counts r d here obj more q r' e =
      let (d₀, obj₀, num, some_caller, locks) = sound.counts q r' e in
      elim (Bool-cases (p == q)) [
        | inl same ↦ (
          dropped d,
          ground (arith, lookup-insert r r' (dropped d) t.objects),
          ground (arith, count-middle q xs ys (at p released)),
          ground arith,
          ground (arith, holders-middle r' xs ys (at p released)),
        )
        | inr other ↦ (
          d₀,
          ground (arith, sound.apart p q r, lookup-insert r r' (dropped d) t.objects),
          ground (arith, count-middle q xs ys (at p released)),
          some_caller,
          ground (arith, holders-middle r' xs ys (at p released)),
        )
      ]

  last-Counts :
      (r : ℕ) (d : PidData)
      → lookup p t.pid_table ≡ some r
      → (q r' : ℕ) → lookup q (delete p t.pid_table) ≡ some r'
      → Counts
          (record t { objects = insert r (dropped d) t.objects; pid_table = delete p t.pid_table })
          (xs ++ ys)
          q
          r'
  last-Counts r d here q r' e =
      let other : (p == q) ≡ false = ground (arith, lookup-delete p q t.pid_table) in
      let old : lookup q t.pid_table ≡ some r' = ground (arith, lookup-delete p q t.pid_table) in
      let (d₀, obj₀, num, some_caller, locks) = sound.counts q r' old in
      (
        d₀,
        ground (arith, sound.apart p q r, lookup-insert r r' (dropped d) t.objects),
        ground (arith, count-middle q xs ys (at p released)),
        some_caller,
        ground (arith, holders-middle r' xs ys (at p released)),
      )

  finish-IsSound : IsSound (untrack t p) (xs ++ ys)
  finish-IsSound =
      let ((r, here, knows), others) = AllFit-middle t.pid_table xs ys (at p released) sound.fits in
      let (d, obj, num, some_caller, locks) = sound.counts p r here in
      elim (Bool-cases (ltb 0 (d.refcnt - 1))) [
        | inl more ↦ rw (untrack-kept t p r d here obj more) (record {
          fits = others;
          counts = kept-Counts r d here obj more;
          fresh = sound.fresh;
          apart = sound.apart;
        })
        | inr last ↦ rw (untrack-last t p r d here obj last) (record {
          fits =
              AllFit-table t.pid_table (delete p t.pid_table) (xs ++ ys)
                (λ q r' e h.
                  ground
                    (arith, lookup-delete p q t.pid_table, count-middle p xs ys (at p released)))
                others;
          counts = last-Counts r d here;
          fresh = λ q r' e. ground (arith, lookup-delete p q t.pid_table, sound.fresh q r');
          apart = λ q q' r' e e'. ground (
            arith,
            lookup-delete p q t.pid_table,
            lookup-delete p q' t.pid_table,
            sound.apart q q' r',
          );
        })
      ]

Step-IsSound :
    {t t' : PidTracker} {cs cs' : List Caller} → IsSound t cs → Step t cs t' cs' → IsSound t' cs'
Step-IsSound sound (start t cs p) = track-IsSound t cs p sound
Step-IsSound sound (look t xs ys p r e) =
    stage-IsSound t xs ys p tracked (found r) sound (λ r' e' k. ground arith) (λ r'. refl)
Step-IsSound sound (look_in_vain t xs ys p e) =
    stage-IsSound t xs ys p tracked unlocked sound (λ r' e' k. ground arith) (λ r'. refl)
Step-IsSound sound (acquire t xs ys p r d obj free) = acquire-IsSound t xs ys p r d sound obj free
Step-IsSound sound (look_again t xs ys p r r' e) =
    stage-IsSound t xs ys p (holding r) (leaving r r') sound (λ r₀ e' k. (k, ground arith))
      (λ r₀. refl)
Step-IsSound sound (look_again_in_vain t xs ys p r e) =
    let ((r', here, knows), others) =
      AllFit-middle t.pid_table xs ys (at p (holding r)) sound.fits in
    absurd (ground arith)
Step-IsSound sound (release t xs ys p r r') = release-IsSound t xs ys p r r' sound
Step-IsSound sound (finish t xs ys p) = finish-IsSound t xs ys p sound

pub reachable-IsSound : (t : PidTracker) (cs : List Caller) → Reachable t cs → IsSound t cs
unfolding lookup
reachable-IsSound t cs initial = record {
  fits = tt;
  counts = λ p r e. absurd (ground arith);
  fresh = λ p r e. absurd (ground arith);
  apart = λ p q r e e'. absurd (ground arith);
}
reachable-IsSound t cs (then_step run step) = Step-IsSound (reachable-IsSound _ _ run) step

abbrev pub has_lock : Stage → Bool
has_lock tracked = false
has_lock (found r) = false
has_lock (holding r) = true
has_lock (leaving r r') = true
has_lock released = false
has_lock unlocked = false

-- The callers of a thread ID between Lock and Unlock.
abbrev pub inside : ℕ → List Caller → ℕ
inside p [] = 0
inside p (c ∷ cs) = (if c.pid == p && has_lock c.stage then 1 else 0) + inside p cs

has_lock-held : (r : ℕ) (s : Stage) → Knows r s → (if has_lock s then 1 else 0) ≡ held r s
has_lock-held r tracked k = refl
has_lock-held r (found x) k = refl
has_lock-held r (holding x) k = ground arith
has_lock-held r (leaving x y) (k, j) = ground arith
has_lock-held r released k = refl
has_lock-held r unlocked k = refl

inside-le_holders :
    (table : Map ℕ ℕ) (p r : ℕ) (cs : List Caller)
    → lookup p table ≡ some r
    → AllFit table cs
    → inside p cs ≤ holders r cs
inside-le_holders table p r [] here h = omega arith
inside-le_holders table p r (c ∷ cs) here ((r', there, knows), rest) =
    ground (arith, has_lock-held r' c.stage knows, inside-le_holders table p r cs here rest)

inside-le_count : (p : ℕ) (cs : List Caller) → inside p cs ≤ count p cs
inside-le_count p [] = omega arith
inside-le_count p (c ∷ cs) = ground (arith, inside-le_count p cs)

inside-bound : (t : PidTracker) (cs : List Caller) (p : ℕ) → IsSound t cs → inside p cs ≤ 1
inside-bound t cs p sound = elim (Option-cases (lookup p t.pid_table)) [
  | inl gone ↦ omega (arith, inside-le_count p cs, count-none t.pid_table p cs sound.fits gone)
  | inr (r, here) ↦
      let (d, obj, num, some_caller, locks) = sound.counts p r here in
      ground (arith, inside-le_holders t.pid_table p r cs here sound.fits)
]

-- In every interleaving of the actions of Lock and Unlock, at most one caller of a thread ID is
-- between the two, whatever the other callers do.
pub one_inside : (t : PidTracker) (cs : List Caller) → Reachable t cs → (p : ℕ) → inside p cs ≤ 1
one_inside t cs run p = inside-bound t cs p (reachable-IsSound t cs run)

-- No caller goes on without a lock because its thread ID was missing.
pub lock_found :
    (t : PidTracker) (xs ys : List Caller) (p : ℕ)
    → Reachable t (xs ++ at p tracked ∷ ys)
    → lookup p t.pid_table ≢ none
lock_found t xs ys p run e =
    let sound = reachable-IsSound t (xs ++ at p tracked ∷ ys) run in
    let ((r', here, knows), others) = AllFit-middle t.pid_table xs ys (at p tracked) sound.fits in
    ground arith

-- In every interleaving, a thread ID without callers has no entry in the tracker's table, and
-- otherwise the count of its entry is the number of its callers.
pub refcnt_exact :
    (t : PidTracker) (cs : List Caller) (p : ℕ)
    → Reachable t cs
    → ((lookup p t.pid_table ≡ none) × (count p cs ≡ 0))
      ⊎ ((r : ℕ) × (d : PidData) × (lookup p t.pid_table ≡ some r)
          × (lookup r t.objects ≡ some d)
          × (d.refcnt ≡ count p cs)
          × (0 < count p cs))
refcnt_exact t cs p run =
    let sound = reachable-IsSound t cs run in
    elim (Option-cases (lookup p t.pid_table)) [
      | inl gone ↦ inl (gone, count-none t.pid_table p cs sound.fits gone)
      | inr (r, here) ↦
          let (d, obj, num, some_caller, locks) = sound.counts p r here in
          inr (r, d, here, obj, num, omega (arith, num, some_caller))
    ]
