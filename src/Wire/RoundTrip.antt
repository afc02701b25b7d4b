-- ===== src/Wire/RoundTrip.antt =====
-- Sending an envelope and receiving it: what one system packs, another delivers.
use native.Mathlib.Nat.{mod-eq_of_lt}
use dvactor.Base.{
  ℕ, ◌≡◌, ◌≢◌, refl, ap, ap₂, inl, inr, subst, ◌∙◌, Option, none, some, List, [], ◌∷◌, map, All,
  arith, returns,
}
use dvactor.Vactor.{
  Vactor, Ref, Value, Response, Envelope, send, batch_send, request_async, response_async, request,
  response, watch, notify, fire_notify, Protobuf,
}
use dvactor.Errors.{
  ok, fails, ok-injective, Result-cases, ok-of->>=, error_code_to_va_error, va_error_to_code,
  success,
}
use dvactor.System.{Message, System, marshal_message}
use dvactor.System.Registry.{IsConsistent, unmarshal_message-marshal_message}
use dvactor.Wire.{Pkg, actor_ref_to_proto, actor_ref_from_proto, Fits, RefFits, to_bits, to_u32}
use dvactor.Wire.Encode.{marshal_all, batch_pkg, to_response, to_pkg}
use dvactor.Wire.Decode.{with_message, unmarshal_all, with_response, deliver}

-- An id keeps its value through the `uint32` of a package.
to_bits-to_u32 : (bits x : ℕ) → Fits bits x → to_bits bits (to_u32 x) ≡ x
to_bits-to_u32 bits x h = rw (mod-eq_of_lt h.1) (mod-eq_of_lt h.0)

module _ (v : Vactor) where
  ref_round : (a : Ref) → RefFits v a → actor_ref_from_proto v (actor_ref_to_proto a) ≡ a
  unfolding actor_ref_from_proto actor_ref_to_proto
  ref_round none h = refl
  ref_round (some a) h = rw (
    to_bits-to_u32 v.system_id_bits a.system_id h.0,
    to_bits-to_u32 v.group_slot_bits a.group_slot h.1,
    to_bits-to_u32 v.actor_type_bits a.actor_type h.2,
  )

  refs_round :
      (refs : List Ref)
      → All (RefFits v) refs
      → map (actor_ref_from_proto v) (map actor_ref_to_proto refs) ≡ refs
  refs_round [] h = refl
  refs_round (a ∷ refs) h = ap₂ ◌∷◌ (ref_round a h.0) (refs_round refs h.1)

  -- An error code that is not the code of success and fits the types.
  abbrev pub ErrorFits : Option ℕ → Type 0
  ErrorFits none = Unit {0}
  ErrorFits (some code) = (code ≢ success v) × Fits v.error_code_bits code

  error_round : (e : Option ℕ) → ErrorFits e → error_code_to_va_error v (va_error_to_code v e) ≡ e
  unfolding error_code_to_va_error va_error_to_code
  error_round none h = refl
  error_round (some code) h = rw (mod-eq_of_lt h.1.1, mod-eq_of_lt h.1.0) (ground (arith, h.0))

module _ (v : Vactor) (pb : Protobuf) (s r : System v pb) (agree : IsConsistent v pb s r) where
  open pb use {P}

  message_round :
      (x : Value P) (m : Message)
      → marshal_message v pb s x ≡ ok m
      → (k : Value P → Option (Envelope P)) → with_message v pb r (some m) k ≡ returns (k x)
  unfolding with_message
  message_round x m e k = rw (unmarshal_message-marshal_message v pb s r x agree e)

  response_round :
      (x : Response P) (m : Message)
      → ErrorFits v x.error
      → marshal_message v pb s x.message ≡ ok m
      → (k : Response P → Option (Envelope P))
      → with_response v pb r (to_response v pb s x m) k ≡ returns (k x)
  unfolding with_response to_response
  response_round x m h e k =
      message_round x.message m e (λ y.
        k (record { error = error_code_to_va_error v (va_error_to_code v x.error); message = y }))
      ∙ ap (λ err. returns (k (record { error = err; message = x.message })))
          (error_round v x.error h)

  -- The messages of a batch that can be wrapped.
  unfoldable pub kept : List (Value P) → List (Value P)
  kept [] = []
  kept (x ∷ xs) = elim (marshal_message v pb s x) [ ok m ↦ x ∷ kept xs | fails code ↦ kept xs ]

  batch_round :
      (xs : List (Value P)) → unmarshal_all v pb r (marshal_all v pb s xs) ≡ returns (kept xs)
  unfolding unmarshal_all marshal_all kept
  batch_round [] = refl
  batch_round (x ∷ xs) = elim (Result-cases (marshal_message v pb s x)) [
    | inl (m, e) ↦
        rw (e, kept, unmarshal_message-marshal_message v pb s r x agree e, batch_round xs)
    | inr (code, e) ↦ rw (e, kept) (batch_round xs)
  ]

  -- The ids and actor refs of an envelope fit the types of the wire, and the error of a response, if
  -- it has one, is not of the success code, which stands for no error there.
  abbrev pub EnvelopeFits : Envelope P → Type 0
  EnvelopeFits (send from to x) = RefFits v from × RefFits v to
  EnvelopeFits (batch_send from tos xs) = RefFits v from × All (RefFits v) tos
  EnvelopeFits (request_async from to x id address) =
      RefFits v from × RefFits v to × Fits v.callback_id_bits id
  EnvelopeFits (response_async from to x id address) =
      RefFits v from × RefFits v to × Fits v.callback_id_bits id × ErrorFits v x.error
  EnvelopeFits (request from to x id) = RefFits v from × RefFits v to × Fits v.callback_id_bits id
  EnvelopeFits (response from to x id) =
      RefFits v from × RefFits v to × Fits v.callback_id_bits id × ErrorFits v x.error
  EnvelopeFits (watch from to w b) = RefFits v from × RefFits v to × Fits v.watch_type_bits w
  EnvelopeFits (notify from tos n about w x) =
      RefFits v from
      × All (RefFits v) tos
      × Fits v.notify_type_bits n
      × RefFits v about
      × Fits v.watch_type_bits w
  EnvelopeFits (fire_notify from to n w x) =
      RefFits v from × RefFits v to × Fits v.notify_type_bits n × Fits v.watch_type_bits w
  EnvelopeFits (Envelope.outer_watch to w b q) = Unit {0}
  EnvelopeFits (Envelope.outer_request to x c) = Unit {0}
  EnvelopeFits (Envelope.internal to n) = Unit {0}

  -- A batch arrives without the messages that could not be wrapped; all else arrives as it is.
  abbrev pub as_sent : Envelope P → Envelope P
  as_sent (batch_send from tos xs) = batch_send from tos (kept xs)
  as_sent e = e

  pub Arrives : Envelope P → Pkg → Type 0
  Arrives e p = deliver v pb r p ≡ returns (some (as_sent e))

  batch-Arrives :
      (from : Ref) (tos : List Ref) (xs : List (Value P)) (p : Pkg)
      → RefFits v from
      → All (RefFits v) tos
      → batch_pkg v pb s from tos (marshal_all v pb s xs) ≡ ok p
      → Arrives (batch_send from tos xs) p
  unfolding Arrives deliver batch_pkg
  batch-Arrives from tos xs p f t h = go (marshal_all v pb s xs) refl h
    where
      go :
          (ms : List (Option Message))
          → marshal_all v pb s xs ≡ ms
          → batch_pkg v pb s from tos ms ≡ ok p
          → Arrives (batch_send from tos xs) p
      go [] e k = cc
      go (m ∷ ms) e k =
          subst (Arrives (batch_send from tos xs)) (ok-injective k)
            (rw (← e, batch_round xs, ref_round v from f, refs_round v tos t))

  -- What `Send` packs, `OnMessage` delivers: on a system whose registry agrees, the package of an
  -- envelope whose ids fit, and whose error, in a response, is not of the success code, is handed to
  -- `LocalRouter` as the same envelope (a batch without the messages that the sender could not wrap),
  -- for each of the nine kinds that cross systems.
  pub deliver-to_pkg :
      (e : Envelope P) {p : Pkg}
      → EnvelopeFits e
      → to_pkg v pb s e ≡ ok p
      → deliver v pb r p ≡ returns (some (as_sent e))
  unfolding to_pkg deliver Arrives
  deliver-to_pkg (send from to x) f h =
      let (m, e, q) = ok-of->>= (marshal_message v pb s x) _ h in
      subst (Arrives (send from to x)) (ok-injective q)
        (rw (message_round x m e, ref_round v from f.0, ref_round v to f.1))
  deliver-to_pkg (batch_send from tos xs) {p} f h = batch-Arrives from tos xs p f.0 f.1 h
  deliver-to_pkg (request_async from to x id address) f h =
      let (m, e, q) = ok-of->>= (marshal_message v pb s x) _ h in
      subst (Arrives (request_async from to x id address)) (ok-injective q) (
        rw (
          message_round x m e,
          ref_round v from f.0,
          ref_round v to f.1,
          to_bits-to_u32 v.callback_id_bits id f.2,
        ))
  deliver-to_pkg (response_async from to x id address) f h =
      let (m, e, q) = ok-of->>= (marshal_message v pb s x.message) _ h in
      subst (Arrives (response_async from to x id address)) (ok-injective q) (
        rw (
          response_round x m f.3 e,
          ref_round v from f.0,
          ref_round v to f.1,
          to_bits-to_u32 v.callback_id_bits id f.2,
        ))
  deliver-to_pkg (request from to x id) f h =
      let (m, e, q) = ok-of->>= (marshal_message v pb s x) _ h in
      subst (Arrives (request from to x id)) (ok-injective q) (
        rw (
          message_round x m e,
          ref_round v from f.0,
          ref_round v to f.1,
          to_bits-to_u32 v.callback_id_bits id f.2,
        ))
  deliver-to_pkg (response from to x id) f h =
      let (m, e, q) = ok-of->>= (marshal_message v pb s x.message) _ h in
      subst (Arrives (response from to x id)) (ok-injective q) (
        rw (
          response_round x m f.3 e,
          ref_round v from f.0,
          ref_round v to f.1,
          to_bits-to_u32 v.callback_id_bits id f.2,
        ))
  deliver-to_pkg (watch from to w b) f h =
      subst (Arrives (watch from to w b)) (ok-injective h)
        (rw (ref_round v from f.0, ref_round v to f.1, to_bits-to_u32 v.watch_type_bits w f.2))
  deliver-to_pkg (notify from tos n about w x) f h =
      let (m, e, q) = ok-of->>= (marshal_message v pb s x) _ h in
      subst (Arrives (notify from tos n about w x)) (ok-injective q) (
        rw (
          message_round x m e,
          ref_round v from f.0,
          refs_round v tos f.1,
          to_bits-to_u32 v.notify_type_bits n f.2,
          ref_round v about f.3,
          to_bits-to_u32 v.watch_type_bits w f.4,
        ))
  deliver-to_pkg (fire_notify from to n w x) f h =
      let (m, e, q) = ok-of->>= (marshal_message v pb s x) _ h in
      subst (Arrives (fire_notify from to n w x)) (ok-injective q) (
        rw (
          message_round x m e,
          ref_round v from f.0,
          ref_round v to f.1,
          to_bits-to_u32 v.notify_type_bits n f.2,
          to_bits-to_u32 v.watch_type_bits w f.3,
        ))
  deliver-to_pkg (Envelope.outer_watch to w b q) f h = cc
  deliver-to_pkg (Envelope.outer_request to x c) f h = cc
  deliver-to_pkg (Envelope.internal to n) f h = cc
