-- ===== src/Nsenter/Send.antt =====
-- The start of an agent for one request (SendRequest, TerminateRequest and namespacePaths of
-- nsenter/event.go), by the calls that fail and the calls that are made on the reaper and the pipe.
pub mod Laws
use sysbox_fs.Prelude.{
  ℕ, String, Bool, true, false, ◌&&◌, not, Option, none, some, List, [], ◌∷◌, ◌++◌, map,
  if◌then◌else◌,
}
use sysbox_fs.Text.{join, concat, join_with}

pub data SendStep : Type 0 where
  new_sock_pair set_passcred start_child send_config wait_child child_succeeds : SendStep
  receive_pid find_first_child find_agent send_credentials encode_payload send_payload : SendStep
  process_response_step : SendStep

pub data Effect : Type 0 where
  nsenter_started nsenter_ended reap_req parent_opened parent_closed child_opened : Effect
  child_closed shut_down agent_waited child_started agent_known agent_killed : Effect

-- A statement of SendRequest: a call that may fail, with what is done before its error is returned;
-- what is done; what is deferred.
pub data Statement : Type 0 where
  attempt : SendStep → List Effect → Statement
  act : Effect → Statement
  defers : Effect → Statement

-- `if !e.Async`.
unfoldable pub unless_async : Bool → List Statement → List Statement
unless_async true statements = []
unless_async false statements = statements

reaping : Bool → List Effect
reaping true = []
reaping false = reap_req ∷ []

-- The response is waited for, unless the request is asynchronous.
unfoldable pub response_part : Bool → List Statement
unfolding unless_async
response_part async = unless_async async (
    attempt process_response_step (shut_down ∷ reap_req ∷ [])
    ∷ act shut_down
    ∷ act agent_waited
    ∷ [])

-- What SendRequest does with the agent, behind the start of the first child.
unfoldable pub agent_part : Bool → List Statement
unfolding reaping response_part
agent_part async =
    attempt send_config (reaping async)
    ∷ attempt wait_child (reaping async)
    ∷ attempt child_succeeds (reaping async)
    ∷ attempt receive_pid []
    ∷ attempt find_first_child []
    ∷ attempt find_agent []
    ∷ act agent_known
    ∷ attempt send_credentials (reaping async)
    ∷ attempt encode_payload (reaping async)
    ∷ attempt send_payload (reaping async)
    ∷ response_part async

-- The body of SendRequest. The child's end is closed behind the start, also where that fails.
unfoldable pub send_body : Bool → List Statement
unfolding unless_async agent_part
send_body async =
    unless_async async (act nsenter_started ∷ defers nsenter_ended ∷ [])
    ++ (attempt new_sock_pair []
          ∷ act parent_opened
          ∷ act child_opened
          ∷ unless_async async (defers parent_closed ∷ [])
        ++ (attempt set_passcred []
            ∷ attempt start_child (child_closed ∷ [])
            ∷ act child_closed
            ∷ act child_started
            ∷ agent_part async))

-- A run: the call that fails, or `none`, and the effects. What was deferred comes when the body
-- returns, the last one first.
unfoldable pub run_body :
    (SendStep → Bool) → List Effect → List Statement → Option SendStep × List Effect
run_body fails waiting [] = (none, waiting)
run_body fails waiting (act e ∷ body) =
    let rest = run_body fails waiting body in (rest.0, e ∷ rest.1)
run_body fails waiting (defers e ∷ body) = run_body fails (e ∷ waiting) body
run_body fails waiting (attempt step on_error ∷ body) =
    let rest = run_body fails waiting body in
    if fails step then (some step, on_error ++ waiting) else rest

unfoldable pub send_request : (SendStep → Bool) → Bool → Option SendStep × List Effect
unfolding run_body send_body
send_request fails async = run_body fails [] (send_body async)

-- TerminateRequest, by whether the agent is known and whether the kill fails.
unfoldable pub terminate_request : Bool → Bool → Bool × List Effect
terminate_request false kill_fails = (true, [])
terminate_request true true = (false, shut_down ∷ [])
terminate_request true false = (true, shut_down ∷ agent_killed ∷ agent_waited ∷ [])

-- The path of a namespace of the process whose number is written as `pid`.
unfoldable pub namespace_paths : String → List String → List String
unfolding join
namespace_paths pid nss =
    map (λ ns. concat ns (concat ":" (join (join (join "/proc" pid) "/ns") ns))) nss
