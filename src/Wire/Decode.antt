-- ===== src/Wire/Decode.antt =====
-- The switch of `clusterNet.OnMessage`: what an unpacked package hands to `LocalRouter`.
use dvactor.Base.{Option, none, some, List, [], ◌∷◌, map, Outcome, returns, panics, ◌>>=◌}
use dvactor.Vactor.{
  Vactor, Ref, Value, nil, Response, Envelope, send, batch_send, request_async, response_async,
  request, response, watch, notify, fire_notify, Protobuf,
}
use dvactor.Errors.{error_code_to_va_error}
use dvactor.System.{Message, System, unmarshal_message}
use dvactor.Wire.{
  Pkg, pkg_send, pkg_batch_send, pkg_request_async, pkg_response_async, pkg_request, pkg_response,
  pkg_watch, pkg_notify, pkg_fire_notify, ProtoRef, ProtoResponse, actor_ref_from_proto, to_bits,
}

module _ (v : Vactor) (pb : Protobuf) (s : System v pb) where
  open pb use {P}

  -- `none` is an error that `OnMessage` returns; nothing is delivered then.
  abbrev pub Delivery : Type 0
  Delivery = Option (Envelope P)

  -- Unwrap a message and go on, or return the error.
  unfoldable pub with_message : Option Message → (Value P → Delivery) → Outcome Delivery
  with_message m k =
      unmarshal_message v pb s m >>= λ r. returns (elim r [ none ↦ none | some x ↦ k x ])

  unfoldable pub skip_error : Option (Value P) → List (Value P) → List (Value P)
  skip_error none xs = xs
  skip_error (some x) xs = x ∷ xs

  -- The loop over the messages of a batch: one that cannot be unwrapped is logged and left out.
  unfoldable pub unmarshal_all : List (Option Message) → Outcome (List (Value P))
  unfolding skip_error
  unmarshal_all [] = returns []
  unmarshal_all (m ∷ ms) =
      unmarshal_message v pb s m >>= λ r. unmarshal_all ms >>= λ xs. returns (skip_error r xs)

  -- `errorCodeToVAError`, and the message if there is one; `pkg.Response` is dereferenced first.
  unfoldable pub with_response : Option ProtoResponse → (Response P → Delivery) → Outcome Delivery
  unfolding with_message
  with_response none k = panics
  with_response (some r) k =
      let error = error_code_to_va_error v r.error_code in
      elim r.message [
        | none ↦ returns (k (record { error = error; message = nil }))
        | some m ↦ with_message (some m) (λ x. k (record { error = error; message = x }))
      ]

  abbrev ref : Option ProtoRef → Ref
  ref = actor_ref_from_proto v

  unfoldable pub deliver : Pkg → Outcome Delivery
  unfolding with_message with_response
  deliver (pkg_send from to m) = with_message m (λ x. some (send (ref from) (ref to) x))
  deliver (pkg_batch_send from tos ms) =
      unmarshal_all ms >>= λ xs. returns (some (batch_send (ref from) (map ref tos) xs))
  deliver (pkg_request_async from to m id address) =
      with_message m
        (λ x. some (request_async (ref from) (ref to) x (to_bits v.callback_id_bits id) address))
  deliver (pkg_response_async from to r id address) =
      with_response r
        (λ x. some (response_async (ref from) (ref to) x (to_bits v.callback_id_bits id) address))
  deliver (pkg_request from to m id) =
      with_message m (λ x. some (request (ref from) (ref to) x (to_bits v.callback_id_bits id)))
  deliver (pkg_response from to r id) =
      with_response r (λ x. some (response (ref from) (ref to) x (to_bits v.callback_id_bits id)))
  deliver (pkg_watch from to watch_type is_watch) =
      returns (some (watch (ref from) (ref to) (to_bits v.watch_type_bits watch_type) is_watch))
  deliver (pkg_notify from tos notify_type about watch_type m) = with_message m (λ x. some (
      notify (ref from) (map ref tos) (to_bits v.notify_type_bits notify_type) (ref about)
        (to_bits v.watch_type_bits watch_type) x))
  deliver (pkg_fire_notify from to notify_type watch_type m) = with_message m (λ x. some (
      fire_notify (ref from) (ref to) (to_bits v.notify_type_bits notify_type)
        (to_bits v.watch_type_bits watch_type) x))
