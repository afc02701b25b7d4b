-- ===== src/Flow/Carry.antt =====
-- The messages on the connection carry the envelopes.
use mathlib.Core.List.{map}
use dvactor.Base.{
  ℕ, ◌≡◌, refl, sym, ap, subst, ◌∙◌, inl, inr, true, false, ◌||◌, Option, none, some, List, [], ◌∷◌,
  ◌++◌, append-nil, All, ◌==◌, if◌then◌else◌, Option-cases, Outcome, returns, returns-injective,
  returns-of->>=, arith,
}
use dvactor.Packet.{Bytes, Frame}
use dvactor.Vactor.{Vactor, Envelope, Protobuf}
use dvactor.System.{System}
use dvactor.System.Registry.{IsConsistent}
use dvactor.Conn.{Conn}
use dvactor.Net.{Unsent, send_message}
use dvactor.Net.Talk.{Talk, quiet, says, moves as talk_moves, kept}
use dvactor.Errors.{ok}
use dvactor.Wire.{Pkg, register_system_req, register_system_rsp}
use dvactor.Wire.Encode.{to_pkg}
use dvactor.Wire.RoundTrip.{EnvelopeFits, as_sent}
use dvactor.Wire.Link.{
  Infos, Codec, Sent, IsFull, send_envelope, Handled, routed, on_message, on_message-send_envelope,
}
use dvactor.Wire.Sending.{Sends, kept_back, handed_on, send_envelope-Sends}
use dvactor.Flow.{
  takes, after, sent_well, is_nil_error, send_on, Flow, silent, registers, sends, moves, handled,
}

module _ (v : Vactor) (pb : Protobuf) (co : Codec) (r : System v pb) where
  pub handled-append :
      (xs ys : List Frame)
      → handled v pb co r (xs ++ ys) ≡ handled v pb co r xs ++ handled v pb co r ys
  unfolding handled
  handled-append [] ys = refl
  handled-append (f ∷ xs) ys = ground (arith, handled-append xs ys)

  -- A registration is not for `clusterNet.OnMessage`, and what it routes is no registration.
  handled-registration :
      (msg_id : ℕ) (bytes : Bytes) (fs : List Frame) (o : Option Unsent)
      → (msg_id == register_system_req || msg_id == register_system_rsp) ≡ true
      → handled v pb co r (kept o (msg_id, bytes) fs) ≡ handled v pb co r fs
  unfolding handled
  handled-registration msg_id bytes fs none h =
      handled-append fs ((msg_id, bytes) ∷ []) ∙ rw h (append-nil (handled v pb co r fs))
  handled-registration msg_id bytes fs (some error) h = refl

  not_registration :
      (msg_id : ℕ) (bytes : Bytes) {e : Envelope _}
      → on_message v pb co r msg_id bytes ≡ returns (routed e)
      → (msg_id == register_system_req || msg_id == register_system_rsp) ≡ false
  unfolding on_message
  not_registration msg_id bytes h = ground arith

  handled-envelope :
      (msg_id : ℕ) (bytes : Bytes) (fs : List Frame) {e : Envelope _}
      → on_message v pb co r msg_id bytes ≡ returns (routed e)
      → handled v pb co r (fs ++ ((msg_id, bytes) ∷ []))
        ≡ handled v pb co r fs ++ (returns (routed e) ∷ [])
  unfolding handled
  handled-envelope msg_id bytes fs h =
      handled-append fs ((msg_id, bytes) ∷ []) ∙ rw (not_registration msg_id bytes h, h)

takes_none : (o : Option Unsent) → is_nil_error o ≡ true → o ≡ none
takes_none none h = refl
takes_none (some error) h = cc

All-last {ℓ κ} :
    {A : Type ℓ} (Q : A → Type κ) (xs : List A) (x : A) → All Q (xs ++ (x ∷ [])) → All Q xs × Q x
All-last Q [] x h = (tt, h.0)
All-last Q (y ∷ xs) x h = let (a, b) = All-last Q xs x h.1 in ((h.0, a), b)

All-sent_well {ℓ κ} :
    {A : Type ℓ} (Q : A → Type κ) (error : Option ℕ) (x : A) (xs : List A)
    → All Q (sent_well error x xs)
    → All Q xs
All-sent_well Q none x xs h = (All-last Q xs x h).0
All-sent_well Q (some code) x xs h = h

map-last {ℓ κ} :
    {A : Type ℓ} {B : Type κ} (f : A → B) (xs : List A) (x : A)
    → map f (xs ++ (x ∷ [])) ≡ map f xs ++ (f x ∷ [])
map-last f [] x = refl
map-last f (y ∷ xs) x = ap (λ l. f y ∷ l) (map-last f xs x)

module _ (v : Vactor) (pb : Protobuf) (co : Codec) (s r : System v pb)
    (agree : IsConsistent v pb s r) where
  open pb use {P}

  -- An envelope is routed on the other side as it was sent.
  abbrev pub arrives : Envelope P → Outcome (Handled v pb co r)
  arrives e = returns (routed (as_sent v pb s r agree e))

  -- The messages sent so far carry the envelopes.
  abbrev pub Carried : Conn → List (Envelope P) → Conn → Type 0
  Carried c es d = (fs : List Frame) × Talk c fs d × (handled v pb co r fs ≡ map arrives es)

  module _ (c d : Conn) (es : List (Envelope P)) (infos : Infos) (system_id : ℕ)
      (e : Envelope P) where
    Next : Option ℕ → List Sent → Type 0
    Next error sent =
        send_envelope v (takes d) pb co s infos system_id e ≡ returns (error, sent)
        → All (EnvelopeFits v pb s r agree) (sent_well error e es)
        → All (λ e'. (p : Pkg) → to_pkg v pb s e' ≡ ok p → IsFull p) (sent_well error e es)
        → Carried c es d
        → Carried c (sent_well error e es) (after d sent)

    handed-Next :
        (error : Option ℕ) (x : Sent) (code : ℕ)
        → error ≡ (if takes d x then none else some code)
        → Next error (x ∷ [])
    unfolding Next
    handed-Next none x code q h fits full (fs, t, k) =
        let good : (send_message d x.msg_id x.body).0 ≡ none =
          takes_none (send_message d x.msg_id x.body).0 (ground (arith, q)) in
        let (f, g) = All-last (EnvelopeFits v pb s r agree) es e fits in
        let (f', g') = All-last (λ e'. (p : Pkg) → to_pkg v pb s e' ≡ ok p → IsFull p) es e full in
        let (y, same, routes) =
          on_message-send_envelope v (takes d) pb co s r agree infos system_id e g g' h in
        let it : x ≡ y = cc same in
        let arrived =
          subst
            (λ (z : Sent).
              on_message v pb co r z.msg_id z.body ≡ returns (routed (as_sent v pb s r agree e)))
            (sym it) routes in
        (
          fs ++ ((x.msg_id, x.body) ∷ []),
          subst (λ o. Talk c (kept o (x.msg_id, x.body) fs) (send_message d x.msg_id x.body).1) good
              (says x.msg_id x.body t),
          handled-envelope v pb co r x.msg_id x.body fs arrived
              ∙ rw k (sym (map-last arrives es e)),
        )
    handed-Next (some other) x code q h fits full (fs, t, k) =
        elim (Option-cases (send_message d x.msg_id x.body).0) [
          | inl a ↦ cc (rw a at q)
          | inr (error, a) ↦ (
            fs,
            subst (λ o. Talk c (kept o (x.msg_id, x.body) fs) (send_message d x.msg_id x.body).1) a
                (says x.msg_id x.body t),
            k,
          )
        ]

    sent-Carried :
        {error : Option ℕ} {sent : List Sent} → Sends v (takes d) error sent → Next error sent
    unfolding Next
    sent-Carried kept_back h fits full k = k
    sent-Carried (handed_on {error} x q) h fits full k = handed-Next error x _ q h fits full k

  pub Flow-Carried :
      (link : ℕ) (c : Conn) (es : List (Envelope P)) {d : Conn}
      → Flow v pb co s link c es d
      → All (EnvelopeFits v pb s r agree) es
      → All (λ e'. (p : Pkg) → to_pkg v pb s e' ≡ ok p → IsFull p) es
      → Carried c es d
  unfolding send_on Next handled
  Flow-Carried link c es silent fits full = ([], quiet, refl)
  Flow-Carried link c es (registers msg_id bytes f m) fits full =
      let (fs, t, k) = Flow-Carried link c es f fits full in
      (
        kept (send_message _ msg_id bytes).0 (msg_id, bytes) fs,
        says msg_id bytes t,
        handled-registration v pb co r msg_id bytes fs _ m ∙ k,
      )
  Flow-Carried link c es (sends {es = es'} {d} {error} infos system_id info e f l k h) fits full =
      let (o, a, b) = returns-of->>= (send_envelope v (takes d) pb co s infos system_id e) _ h in
      let before =
        Flow-Carried link c es' f (All-sent_well (EnvelopeFits v pb s r agree) error e es' fits)
          (All-sent_well (λ e'. (p : Pkg) → to_pkg v pb s e' ≡ ok p → IsFull p) error e es' full) in
      subst
        (λ (z : Option ℕ × Conn).
          All (EnvelopeFits v pb s r agree) (sent_well z.0 e es')
          → All (λ e'. (p : Pkg) → to_pkg v pb s e' ≡ ok p → IsFull p) (sent_well z.0 e es')
          → Carried c (sent_well z.0 e es') z.1)
        (returns-injective b)
        (λ fits' full'.
          sent-Carried c d es' infos system_id e
            (send_envelope-Sends v (takes d) pb co s infos system_id e a) a fits' full' before)
        fits full
  Flow-Carried link c es (moves f st same) fits full =
      let (fs, t, k) = Flow-Carried link c es f fits full in (fs, talk_moves t st same, k)
