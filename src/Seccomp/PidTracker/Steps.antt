-- ===== src/Seccomp/PidTracker/Steps.antt =====
-- Every step of a caller keeps the tracker sound.
use sysbox_fs.Prelude.{
  ℕ, ◌+◌, ◌≡◌, refl, Bool, true, false, none, some, List, ◌∷◌, ◌++◌, ◌==◌, nat_eq, if◌then◌else◌,
  arith, inl, inr, Option-cases, Bool-cases,
}
use sysbox_fs.Prelude.Maps.{lookup, insert, lookup-insert}
use sysbox_fs.Seccomp.PidTracker.{
  PidData, PidTracker, add_pid, add_ref, track, set_locked, Stage, tracked, found, holding, leaving,
  released, Caller, at,
}
use sysbox_fs.Seccomp.PidTracker.Invariant.{
  held, holders, count-middle, holders-middle, Knows, AllFit, Counts, IsSound, AllFit-middle,
  AllFit-insert, AllFit-table, holders-none, count-none,
}

track-new : (t : PidTracker) (p : ℕ) → lookup p t.pid_table ≡ none → track t p ≡ add_pid t p
unfolding track
track-new t p new = ground arith

track-old :
    (t : PidTracker) (p r : ℕ) (d : PidData)
    → lookup p t.pid_table ≡ some r
    → lookup r t.objects ≡ some d
    → track t p ≡ add_ref t r (some d)
unfolding track
track-old t p r d here obj = ground arith

module _ (t : PidTracker) (cs : List Caller) (p : ℕ) (sound : IsSound t cs) where
  add_pid-fits : lookup p t.pid_table ≡ none → AllFit (add_pid t p).pid_table (at p tracked ∷ cs)
  unfolding add_pid
  add_pid-fits new = (
    (t.next, ground (arith, lookup-insert p p t.next t.pid_table), tt),
    AllFit-table t.pid_table (insert p t.next t.pid_table) cs
        (λ q r e h. ground (arith, lookup-insert p q t.next t.pid_table)) sound.fits,
  )

  add_pid-Counts :
      lookup p t.pid_table ≡ none
      → (q r : ℕ) → lookup q (add_pid t p).pid_table ≡ some r
      → Counts (add_pid t p) (at p tracked ∷ cs) q r
  unfolding add_pid
  add_pid-Counts new q r e =
      let d₀ : PidData = record { refcnt = 1; locked = false } in
      elim (Bool-cases (p == q)) [
        | inl same ↦ (
          d₀,
          ground (arith, lookup-insert p q t.next t.pid_table, lookup-insert t.next r d₀ t.objects),
          ground (arith, count-none t.pid_table p cs sound.fits new),
          ground arith,
          ground (
            arith,
            lookup-insert p q t.next t.pid_table,
            holders-none t.pid_table t.next cs sound.fits
                (λ q' e'. ground (arith, sound.fresh q' t.next)),
          ),
        )
        | inr other ↦
            let old : lookup q t.pid_table ≡ some r =
              ground (arith, lookup-insert p q t.next t.pid_table) in
            let (d, obj, num, some_caller, locks) = sound.counts q r old in
            (
              d,
              ground (arith, sound.fresh q r, lookup-insert t.next r d₀ t.objects),
              ground arith,
              some_caller,
              omega (arith, locks),
            )
      ]

  add_pid-IsSound : lookup p t.pid_table ≡ none → IsSound (add_pid t p) (at p tracked ∷ cs)
  unfolding add_pid
  add_pid-IsSound new = record {
    fits = add_pid-fits new;
    counts = add_pid-Counts new;
    fresh = λ q r e. ground (arith, lookup-insert p q t.next t.pid_table, sound.fresh q r);
    apart = λ q q' r e e'. ground (
      arith,
      lookup-insert p q t.next t.pid_table,
      lookup-insert p q' t.next t.pid_table,
      sound.apart q q' r,
      sound.fresh q r,
      sound.fresh q' r,
    );
  }

  add_ref-Counts :
      (r : ℕ) (d : PidData)
      → lookup p t.pid_table ≡ some r
      → lookup r t.objects ≡ some d
      → (q r' : ℕ) → lookup q t.pid_table ≡ some r'
      → Counts (add_ref t r (some d)) (at p tracked ∷ cs) q r'
  unfolding add_ref
  add_ref-Counts r d here obj q r' e =
      let d' : PidData = record d { refcnt = d.refcnt + 1 } in
      let (d₀, obj₀, num, some_caller, locks) = sound.counts q r' e in
      elim (Bool-cases (p == q)) [
        | inl same ↦ (
          d',
          ground (arith, lookup-insert r r' d' t.objects),
          ground arith,
          ground arith,
          ground arith,
        )
        | inr other ↦ (
          d₀,
          ground (arith, sound.apart p q r, lookup-insert r r' d' t.objects),
          ground arith,
          some_caller,
          omega (arith, locks),
        )
      ]

  add_ref-IsSound :
      (r : ℕ) (d : PidData)
      → lookup p t.pid_table ≡ some r
      → lookup r t.objects ≡ some d
      → IsSound (add_ref t r (some d)) (at p tracked ∷ cs)
  unfolding add_ref
  add_ref-IsSound r d here obj = record {
    fits = ((r, here, tt), sound.fits);
    counts = add_ref-Counts r d here obj;
    fresh = sound.fresh;
    apart = sound.apart;
  }

  pub track-IsSound : IsSound (track t p) (at p tracked ∷ cs)
  track-IsSound = elim (Option-cases (lookup p t.pid_table)) [
    | inl new ↦ rw (track-new t p new) (add_pid-IsSound new)
    | inr (r, here) ↦
        let counted = sound.counts p r here in
        rw (track-old t p r counted.0 here counted.1) (add_ref-IsSound r counted.0 here counted.1)
  ]

module _ (t : PidTracker) (xs ys : List Caller) (p : ℕ) where
  -- A caller's next stage that leaves the tracker and the locks as they are.
  pub stage-IsSound :
      (s s' : Stage)
      → IsSound t (xs ++ at p s ∷ ys)
      → ((r : ℕ) → lookup p t.pid_table ≡ some r → Knows r s → Knows r s')
      → ((r : ℕ) → held r s' ≡ held r s)
      → IsSound t (xs ++ at p s' ∷ ys)
  stage-IsSound s s' sound learns same =
      let ((r, here, knows), others) = AllFit-middle t.pid_table xs ys (at p s) sound.fits in
      record {
        fits = AllFit-insert t.pid_table xs ys (at p s') (r, here, learns r here knows) others;
        counts = λ q r' e.
            let (d, obj, num, some_caller, locks) = sound.counts q r' e in
            (
              d,
              obj,
              omega (arith, count-middle q xs ys (at p s), count-middle q xs ys (at p s'), num),
              some_caller,
              omega (
                arith,
                holders-middle r' xs ys (at p s),
                holders-middle r' xs ys (at p s'),
                same r',
                locks,
              ),
            );
        fresh = sound.fresh;
        apart = sound.apart;
      }

  -- A caller's next stage with the lock of its object taken or given back.
  lock-Counts :
      (s s' : Stage) (b : Bool) (r : ℕ) (d : PidData)
      → IsSound t (xs ++ at p s ∷ ys)
      → lookup p t.pid_table ≡ some r
      → lookup r t.objects ≡ some d
      → holders r (xs ++ at p s' ∷ ys) ≡ (if b then 1 else 0)
      → ((r' : ℕ) → (r == r') ≡ false → held r' s' ≡ held r' s)
      → (q r' : ℕ) → lookup q t.pid_table ≡ some r'
      → Counts (set_locked t r (some d) b) (xs ++ at p s' ∷ ys) q r'
  unfolding set_locked
  lock-Counts s s' b r d sound here obj locked others q r' e =
      let d' : PidData = record d { locked = b } in
      let (d₀, obj₀, num, some_caller, locks) = sound.counts q r' e in
      elim (Bool-cases (r == r')) [
        | inl same ↦ (
          d',
          ground (arith, lookup-insert r r' d' t.objects),
          ground (arith, count-middle q xs ys (at p s), count-middle q xs ys (at p s')),
          ground arith,
          ground arith,
        )
        | inr other ↦ (
          d₀,
          ground (arith, lookup-insert r r' d' t.objects),
          omega (arith, count-middle q xs ys (at p s), count-middle q xs ys (at p s'), num),
          some_caller,
          omega (
            arith,
            holders-middle r' xs ys (at p s),
            holders-middle r' xs ys (at p s'),
            others r' other,
            locks,
          ),
        )
      ]

  lock-IsSound :
      (s s' : Stage) (b : Bool) (r : ℕ) (d : PidData)
      → IsSound t (xs ++ at p s ∷ ys)
      → lookup p t.pid_table ≡ some r
      → lookup r t.objects ≡ some d
      → holders r (xs ++ at p s' ∷ ys) ≡ (if b then 1 else 0)
      → ((r' : ℕ) → (r == r') ≡ false → held r' s' ≡ held r' s)
      → Knows r s'
      → IsSound (set_locked t r (some d) b) (xs ++ at p s' ∷ ys)
  unfolding set_locked
  lock-IsSound s s' b r d sound here obj locked others knows = record {
    fits =
        AllFit-insert t.pid_table xs ys (at p s') (r, here, knows)
          (AllFit-middle t.pid_table xs ys (at p s) sound.fits).1;
    counts = lock-Counts s s' b r d sound here obj locked others;
    fresh = sound.fresh;
    apart = sound.apart;
  }

  pub acquire-IsSound :
      (r : ℕ) (d : PidData)
      → IsSound t (xs ++ at p (found r) ∷ ys)
      → lookup r t.objects ≡ some d
      → d.locked ≡ false
      → IsSound (set_locked t r (some d) true) (xs ++ at p (holding r) ∷ ys)
  acquire-IsSound r d sound obj free =
      let ((r₀, here, knows), others) =
        AllFit-middle t.pid_table xs ys (at p (found r)) sound.fits in
      let (d₀, obj₀, num, some_caller, locks) = sound.counts p r (ground arith) in
      lock-IsSound (found r) (holding r) true r d sound (ground arith) obj
        (ground (
          arith,
          holders-middle r xs ys (at p (found r)),
          holders-middle r xs ys (at p (holding r)),
        ))
        (λ r' other. ground arith) refl

  pub release-IsSound :
      (r r' : ℕ)
      → IsSound t (xs ++ at p (leaving r r') ∷ ys)
      → IsSound (set_locked t r' (lookup r' t.objects) false) (xs ++ at p released ∷ ys)
  release-IsSound r r' sound =
      let ((r₀, here, knows), others) =
        AllFit-middle t.pid_table xs ys (at p (leaving r r')) sound.fits in
      let here' : lookup p t.pid_table ≡ some r' = ground arith in
      let (d, obj, num, some_caller, locks) = sound.counts p r' here' in
      rw obj (
        lock-IsSound (leaving r r') released false r' d sound here' obj
          (ground (
            arith,
            holders-middle r' xs ys (at p (leaving r r')),
            holders-middle r' xs ys (at p released),
          ))
          (λ q other. ground arith) tt)
