-- ===== src/Nsenter/Send/Laws.antt =====
-- The reaper's lock and the socket pair over a request.
use sysbox_fs.Prelude.{
  ℕ, ◌+◌, ◌≡◌, refl, Bool, true, false, not, List, [], ◌∷◌, ◌++◌, any, arith, ◌==◌, nat_eq,
  if◌then◌else◌,
}
use sysbox_fs.Nsenter.Send.{
  run_body, send_body, agent_part, response_part, unless_async, reaping, SendStep, Effect,
  Statement, attempt, act, defers, nsenter_started, nsenter_ended, parent_opened, parent_closed,
  child_opened, child_closed, send_request, new_sock_pair, set_passcred,
}

abbrev pub count : (Effect → Bool) → List Effect → ℕ
count p [] = 0
count p (e ∷ es) = (if p e then 1 else 0) + count p es

abbrev pub is_start : Effect → Bool
is_start nsenter_started = true
is_start _ = false

abbrev pub is_end : Effect → Bool
is_end nsenter_ended = true
is_end _ = false

abbrev pub is_parent_open : Effect → Bool
is_parent_open parent_opened = true
is_parent_open _ = false

abbrev pub is_parent_close : Effect → Bool
is_parent_close parent_closed = true
is_parent_close _ = false

abbrev pub is_child_open : Effect → Bool
is_child_open child_opened = true
is_child_open _ = false

abbrev pub is_child_close : Effect → Bool
is_child_close child_closed = true
is_child_close _ = false

count-append :
    (p : Effect → Bool) (xs ys : List Effect) → count p (xs ++ ys) ≡ count p xs + count p ys
count-append p [] ys = omega arith
count-append p (x ∷ xs) ys = omega (arith, count-append p xs ys)

-- What a statement may do that counts.
abbrev weight : (Effect → Bool) → Statement → ℕ
weight p (attempt step on_error) = count p on_error
weight p (act e) = count p (e ∷ [])
weight p (defers e) = count p (e ∷ [])

-- Behind the last statement that counts only the deferred effects do.
run_body-count :
    (p : Effect → Bool) (fails : SendStep → Bool) (waiting : List Effect) (body : List Statement)
    → any (λ s. not (weight p s == 0)) body ≡ false
    → count p (run_body fails waiting body).1 ≡ count p waiting
unfolding run_body
run_body-count p fails waiting [] h = refl
run_body-count p fails waiting (act e ∷ body) h =
    ground (arith, run_body-count p fails waiting body)
run_body-count p fails waiting (defers e ∷ body) h =
    ground (arith, run_body-count p fails (e ∷ waiting) body)
run_body-count p fails waiting (attempt step on_error ∷ body) h =
    ground (arith, run_body-count p fails waiting body, count-append p on_error waiting)

-- Whichever of the calls of SendRequest fail, a request takes the lock of the reaper once and gives
-- it back once, an asynchronous one neither. Both ends of the socket pair are opened unless that
-- fails. The parent's end is closed once if it was opened and the request is not asynchronous; the
-- child's end is closed once if it was opened, unless the setting of the socket option fails: then it
-- is not closed.
pub send_request-balanced :
    (fails : SendStep → Bool) (async : Bool)
    → let effects = (send_request fails async).1 in
      let opened : ℕ = if fails new_sock_pair then 0 else 1 in
      (count is_start effects ≡ (if async then 0 else 1))
      × (count is_end effects ≡ (if async then 0 else 1))
      × (count is_parent_open effects ≡ opened)
      × (count is_parent_close effects ≡ (if async then 0 else opened))
      × (count is_child_open effects ≡ opened)
      × (count is_child_close effects ≡ (if fails set_passcred then 0 else opened))
unfolding run_body send_body send_request agent_part response_part unless_async reaping
send_request-balanced fails true = (
  ground (arith, run_body-count is_start fails ([]) (agent_part true) refl),
  ground (arith, run_body-count is_end fails ([]) (agent_part true) refl),
  ground (arith, run_body-count is_parent_open fails ([]) (agent_part true) refl),
  ground (arith, run_body-count is_parent_close fails ([]) (agent_part true) refl),
  ground (arith, run_body-count is_child_open fails ([]) (agent_part true) refl),
  ground (arith, run_body-count is_child_close fails ([]) (agent_part true) refl),
)
send_request-balanced fails false = (
  ground (
    arith,
    run_body-count is_start fails (parent_closed ∷ nsenter_ended ∷ []) (agent_part false) refl,
  ),
  ground (
    arith,
    run_body-count is_end fails (parent_closed ∷ nsenter_ended ∷ []) (agent_part false) refl,
  ),
  ground (
    arith,
    run_body-count is_parent_open fails (parent_closed ∷ nsenter_ended ∷ []) (agent_part false)
        refl,
  ),
  ground (
    arith,
    run_body-count is_parent_close fails (parent_closed ∷ nsenter_ended ∷ []) (agent_part false)
        refl,
  ),
  ground (
    arith,
    run_body-count is_child_open fails (parent_closed ∷ nsenter_ended ∷ []) (agent_part false) refl,
  ),
  ground (
    arith,
    run_body-count is_child_close fails (parent_closed ∷ nsenter_ended ∷ []) (agent_part false)
        refl,
  ),
)
