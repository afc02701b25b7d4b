-- ===== src/Wire/Encode.antt =====
-- The switch of `clusterNet.Send`: the package of an envelope, or the error that it returns.
use dvactor.Base.{Option, some, List, [], ◌∷◌, map}
use dvactor.Vactor.{
  Vactor, Ref, Value, Response, Envelope, send, batch_send, request_async, response_async, request,
  response, watch, notify, fire_notify, Protobuf,
}
use dvactor.Errors.{Result, ok, fails, ◌>>=◌, message_len_error, unknown_envelope, va_error_to_code}
use dvactor.System.{Message, System, marshal_message}
use dvactor.Wire.{
  Pkg, pkg_send, pkg_batch_send, pkg_request_async, pkg_response_async, pkg_request, pkg_response,
  pkg_watch, pkg_notify, pkg_fire_notify, ProtoResponse, actor_ref_to_proto, to_u32,
}

module _ (v : Vactor) (pb : Protobuf) (s : System v pb) where
  open pb use {P}

  -- The loop over the messages of a batch: one that cannot be wrapped is logged and left out.
  unfoldable pub keep : Result Message → List (Option Message) → List (Option Message)
  keep (ok m) ms = some m ∷ ms
  keep (fails code) ms = ms

  unfoldable pub marshal_all : List (Value P) → List (Option Message)
  unfolding keep
  marshal_all [] = []
  marshal_all (x ∷ xs) = keep (marshal_message v pb s x) (marshal_all xs)

  unfoldable pub batch_pkg : Ref → List Ref → List (Option Message) → Result Pkg
  batch_pkg from tos [] = fails (message_len_error v)
  batch_pkg from tos (m ∷ ms) =
      ok (pkg_batch_send (actor_ref_to_proto from) (map actor_ref_to_proto tos) (m ∷ ms))

  -- The response package of an error, if there is one, and a wrapped message.
  unfoldable pub to_response : Response P → Message → Option ProtoResponse
  to_response r m = some (record { error_code = va_error_to_code v r.error; message = some m })

  unfoldable pub to_pkg : Envelope P → Result Pkg
  unfolding marshal_all batch_pkg to_response
  to_pkg (send from to x) = do
    m ← marshal_message v pb s x
    ok (pkg_send (actor_ref_to_proto from) (actor_ref_to_proto to) (some m))
  to_pkg (batch_send from tos xs) = batch_pkg from tos (marshal_all xs)
  to_pkg (request_async from to x id address) = do
    m ← marshal_message v pb s x
    ok (
        pkg_request_async (actor_ref_to_proto from) (actor_ref_to_proto to) (some m) (to_u32 id)
          address)
  to_pkg (response_async from to r id address) = do
    m ← marshal_message v pb s r.message
    ok (
        pkg_response_async (actor_ref_to_proto from) (actor_ref_to_proto to) (to_response r m)
          (to_u32 id) address)
  to_pkg (request from to x id) = do
    m ← marshal_message v pb s x
    ok (pkg_request (actor_ref_to_proto from) (actor_ref_to_proto to) (some m) (to_u32 id))
  to_pkg (response from to r id) = do
    m ← marshal_message v pb s r.message
    ok (
        pkg_response (actor_ref_to_proto from) (actor_ref_to_proto to) (to_response r m)
          (to_u32 id))
  to_pkg (watch from to watch_type is_watch) =
      ok (pkg_watch (actor_ref_to_proto from) (actor_ref_to_proto to) (to_u32 watch_type) is_watch)
  to_pkg (notify from tos notify_type ref watch_type x) = do
    m ← marshal_message v pb s x
    ok (
        pkg_notify (actor_ref_to_proto from) (map actor_ref_to_proto tos) (to_u32 notify_type)
          (actor_ref_to_proto ref) (to_u32 watch_type) (some m))
  to_pkg (fire_notify from to notify_type watch_type x) = do
    m ← marshal_message v pb s x
    ok (
        pkg_fire_notify (actor_ref_to_proto from) (actor_ref_to_proto to) (to_u32 notify_type)
          (to_u32 watch_type) (some m))
  to_pkg (Envelope.outer_watch to w b q) = fails (unknown_envelope v)
  to_pkg (Envelope.outer_request to x c) = fails (unknown_envelope v)
  to_pkg (Envelope.internal to n) = fails (unknown_envelope v)
