-- ===== src/Nsenter/Exchange/Openat2.antt =====
-- Failed requests of openat2 (nsenter/event.go).
use sysbox_fs.Prelude.{ℕ, ◌≡◌, refl, false, none, some, [], ◌∷◌, err, arith, nat_eq}
use sysbox_fs.Nsenter.Remounts.{GoError}
use sysbox_fs.Nsenter.Message.{
  NsMsg, Openat2Payload, openat2_payload, openat2_shape, io_error_shape, io_code, code_of, Codec,
  shape_of, IsJson, taken_as,
}
use sysbox_fs.Nsenter.Agent.{Os}
use sysbox_fs.Nsenter.Agent.Calls.{process_openat2_syscall_request}
use sysbox_fs.Nsenter.Agent.Dispatch.{serve_payload, process_request, serve_decoded}
use sysbox_fs.Nsenter.Exchange.{received, unanswered, exchange, exchanged, stray_descriptors}

module _ {S : Type 0} (os : Os S) (codec : Codec) (json : IsJson codec) where
  -- Where the agent cannot take on the caller's attributes, no message comes for the descriptors.
  pub openat2-unanswered :
      (p : Openat2Payload) (s s' : S) (e : GoError) (c : ℕ)
      → p.check_for_sysboxfs ≡ false
      → os.personality s p.header ≡ (some e, s')
      → code_of e ≡ some c
      → (exchange os codec NsMsg.openat2_request (openat2_payload p) s).0 ≡ unanswered
  unfolding exchange process_request serve_payload serve_decoded process_openat2_syscall_request
      shape_of exchanged
  openat2-unanswered p s s' e c unchecked refused coded =
      ground (arith, json.round_trip openat2_shape (openat2_payload p) refl)

  -- Where the kernel refuses to open the file, the number of its error comes with a copy of the agent's
  -- descriptor 0, which no response names.
  pub openat2-stray_descriptor :
      (p : Openat2Payload) (s s' : S) (e : GoError) (c : ℕ)
      → p.check_for_sysboxfs ≡ false
      → os.personality s p.header ≡ (none, s')
      → os.openat2 s' p.path p.flags p.mode p.resolve ≡ err e
      → code_of e ≡ some c
      → ((exchange os codec NsMsg.openat2_request (openat2_payload p) s).0
          ≡ received NsMsg.error_response (io_code c))
        × (stray_descriptors codec (0 ∷ []) NsMsg.error_response ≡ 0 ∷ [])
        × ((serve_payload os codec (openat2_payload p) s).descriptors ≡ some 0 ∷ [])
  unfolding exchange process_request serve_payload serve_decoded process_openat2_syscall_request
      shape_of exchanged stray_descriptors taken_as
  openat2-stray_descriptor p s s' e c unchecked taken_on refused coded = (
    ground (
      arith,
      json.round_trip openat2_shape (openat2_payload p) refl,
      json.round_trip io_error_shape (io_code c) refl,
    ),
    refl,
    ground arith,
  )
