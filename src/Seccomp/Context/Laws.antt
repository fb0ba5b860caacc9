-- ===== src/Seccomp/Context/Laws.antt =====
-- Responses and events.
use sysbox_fs.Prelude.{◌≢◌, ◌≡◌, Bool, true, false, Option, none, some, arith}
use sysbox_fs.Seccomp.Context.{
  Outcome, respond, failed, crashed, SyscallCtx, Event, send_failed, after_event, after_reply,
  is_response,
}

pub after_event-responds :
    (ctx : SyscallCtx) (e : Event)
    → ((e' : Event) → ctx.nsenter e' ≢ send_failed)
    → is_response (after_event ctx e) ≡ true
unfolding after_event after_reply
after_event-responds ctx e reach = ground (arith, reach e)

abbrev pub is_there {ℓ} : {A : Type ℓ} → Option A → Bool
is_there none = false
is_there (some a) = true

pub responds-not_crashed : (out : Outcome) → is_response out ≡ true → out ≢ crashed
responds-not_crashed (respond resp) h = λ e. cc
responds-not_crashed failed h = absurd (ground arith)
responds-not_crashed crashed h = absurd (ground arith)
