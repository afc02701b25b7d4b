-- ===== src/Packet/Cut.antt =====
-- The receiving loop: it ends, and it does not see how the bytes were split into reads.
use dvactor.Base.{
  ℕ, zero, suc, ◌^◌, ◌<◌, ◌≡◌, ◌≢◌, refl, ap, sym, ◌∙◌, Option, none, some, List, [], ◌∷◌, ◌++◌,
  length, Outcome, returns, panics, arith, length-append, append-nil, append_assoc,
}
use mathlib.Core.List.{flatten}
use dvactor.Packet.{
  Bytes, Frame, next, Stop, waiting, crashed, out_of_fuel, deliver, drain, cut, on_data, append,
  read_into, connected, receive,
}
use dvactor.Packet.Header.{next_shrinks, next-none, next-append_some, next-append_panics}

-- The three things that a call of `next` can come to.
data Next (buf : Bytes) : Type 0 where
  panicked : next buf ≡ panics → Next buf
  incomplete : next buf ≡ returns (none, buf) → Next buf
  framed : (f : Frame) (rest : Bytes) → next buf ≡ returns (some f, rest) → Next buf

Next-cases : (buf : Bytes) → Next buf
Next-cases buf = go (next buf) refl
  where
    go : (r : Outcome (Option Frame × Bytes)) → next buf ≡ r → Next buf
    go panics e = panicked e
    go (returns (none, rest)) e = incomplete (e ∙ ap (λ b. returns (none, b)) (next-none buf e))
    go (returns (some f, rest)) e = framed f rest e

-- With more fuel than bytes the fuel does not matter.
drain_fuel : (n m : ℕ) (buf : Bytes) → length buf < n → length buf < m → drain n buf ≡ drain m buf
unfolding drain
drain_fuel zero m buf h k = absurd (omega arith)
drain_fuel (suc n) zero buf h k = absurd (omega arith)
drain_fuel (suc n) (suc m) buf h k = elim (Next-cases buf) [
  | panicked e ↦ rw (e, drain)
  | incomplete e ↦ rw (e, drain)
  | framed f rest e ↦
      rw (e, drain)
        (ap (deliver (f ∷ [])) (
          drain_fuel n m rest (omega (arith, next_shrinks buf e))
            (omega (arith, next_shrinks buf e))))
]

pub cut-panics :
    (buf : Bytes) → next buf ≡ panics → cut buf ≡ record { frames = []; stop = crashed }
unfolding cut drain
cut-panics buf e = rw (e, drain)

pub cut-none :
    (buf : Bytes)
    → next buf ≡ returns (none, buf)
    → cut buf ≡ record { frames = []; stop = waiting buf }
unfolding cut drain
cut-none buf e = rw (e, drain)

pub cut-some :
    (buf : Bytes) {f : Frame} {rest : Bytes}
    → next buf ≡ returns (some f, rest)
    → cut buf ≡ deliver (f ∷ []) (cut rest)
unfolding cut drain
cut-some buf {f} {rest} e =
    rw (e, drain)
      (ap (deliver (f ∷ []))
        (drain_fuel (length buf) (suc (length rest)) rest (next_shrinks buf e) (omega arith)))

-- The loop always stops for a reason of the code: the fuel is enough.
drain-ne-out_of_fuel : (n : ℕ) (buf : Bytes) → length buf < n → (drain n buf).stop ≢ out_of_fuel
unfolding drain
drain-ne-out_of_fuel zero buf h = absurd (omega arith)
drain-ne-out_of_fuel (suc n) buf h = elim (Next-cases buf) [
  | panicked e ↦ rw (e, drain) (λ q. cc)
  | incomplete e ↦ rw (e, drain) (λ q. cc)
  | framed f rest e ↦
      rw (e, drain) (drain-ne-out_of_fuel n rest (omega (arith, next_shrinks buf e)))
]

-- The loop over the buffer ends for every buffer: the fuel given never runs out.
pub cut-ne-out_of_fuel : (buf : Bytes) → (cut buf).stop ≢ out_of_fuel
unfolding cut
cut-ne-out_of_fuel buf = drain-ne-out_of_fuel (suc (length buf)) buf (omega arith)

deliver-read_into :
    (f : Frame) (fs : List Frame) (stop : Stop) (more : Bytes)
    → deliver (f ∷ []) (read_into fs stop more) ≡ read_into (f ∷ fs) stop more
unfolding read_into
deliver-read_into f fs (waiting rest) more = refl
deliver-read_into f fs crashed more = refl
deliver-read_into f fs out_of_fuel more = refl

-- Cutting after a read is cutting the two reads together.
read_into-cut :
    (n : ℕ) (buf more : Bytes)
    → length buf < n
    → length (buf ++ more) < 2 ^ 32
    → read_into (cut buf).frames (cut buf).stop more ≡ cut (buf ++ more)
unfolding read_into on_data append
read_into-cut zero buf more h k = absurd (omega arith)
read_into-cut (suc n) buf more h k = elim (Next-cases buf) [
  | panicked e ↦ rw (cut-panics buf e, cut-panics (buf ++ more) (next-append_panics buf more k e))
  | incomplete e ↦ rw (cut-none buf e)
  | framed f rest e ↦
      rw (cut-some buf e, cut-some (buf ++ more) (next-append_some buf more k e))
        (sym (deliver-read_into f (cut rest).frames (cut rest).stop more)
          ∙ ap (deliver (f ∷ [])) (
              read_into-cut n rest more (omega (arith, next_shrinks buf e)) (
                omega
                  (arith, next_shrinks buf e, length-append rest more, length-append buf more))))
]

receive-cut :
    (buf : Bytes) (chunks : List Bytes)
    → length (buf ++ flatten chunks) < 2 ^ 32
    → receive (cut buf) chunks ≡ cut (buf ++ flatten chunks)
unfolding receive flatten
receive-cut buf [] h = rw append-nil
receive-cut buf (chunk ∷ chunks) h =
    rw (read_into-cut (suc (length buf)) buf chunk (omega arith) short) (
      receive-cut (buf ++ chunk) chunks (rw append_assoc h)
      ∙ ap cut (append_assoc buf chunk (flatten chunks)))
  where
    short : length (buf ++ chunk) < 2 ^ 32
    short = omega (
      arith,
      length-append buf chunk,
      length-append buf (chunk ++ flatten chunks),
      length-append chunk (flatten chunks),
    )

cut-nil : cut [] ≡ connected
unfolding cut drain next
cut-nil = refl

-- However the bytes of a connection are split into reads, the loop hands the same frames to
-- `onMessage` and stops in the same way (waiting with the same bytes left, or in a panic) as if
-- all had come at once, as long as the connection carries fewer than 2^32 bytes.
pub receive-flatten :
    (chunks : List Bytes)
    → length (flatten chunks) < 2 ^ 32
    → receive connected chunks ≡ cut (flatten chunks)
receive-flatten chunks h = rw (← cut-nil) (receive-cut [] chunks h)
