-- ===== src/Wire/Silent.antt =====
-- Responses that `clusterNet.Send` does not send.
use dvactor.Base.{ℕ, ◌≡◌, Bool, List, [], Option, some, Outcome, returns}
use dvactor.Vactor.{Vactor, Ref, nil, Response, response, response_async, Protobuf}
use dvactor.Errors.{message_cannot_serialize}
use dvactor.System.{System}
use dvactor.Wire.Encode.{to_pkg}
use dvactor.Wire.Link.{Codec, Infos, Sent, send_envelope}
use dvactor.System.Registry.{marshal_message-nil}

module _ (v : Vactor) (send_message : Sent → Bool) (pb : Protobuf) (c : Codec)
    (s : System v pb) where
  open pb use {P}

  -- A response that carries an error and no message never leaves the system: whatever the error,
  -- the receiver, the state of the links and the registered types, `Send` hands nothing to any
  -- link and returns the error for a message that cannot be serialized, for both kinds of response.
  pub send_envelope-nil_response :
      (infos : Infos) (system_id : ℕ) (from to : Ref) (error : Option ℕ) (id address : ℕ)
      → let r : Response P = record { error = error; message = nil } in
        let refused : Outcome (Option ℕ × List Sent) =
          returns (some (message_cannot_serialize v), []) in
        (send_envelope v send_message pb c s infos system_id (response from to r id) ≡ refused)
        × (send_envelope v send_message pb c s infos system_id (response_async from to r id address)
            ≡ refused)
  unfolding send_envelope to_pkg
  send_envelope-nil_response infos system_id from to error id address =
      (rw (marshal_message-nil v pb s), rw (marshal_message-nil v pb s))
