-- ===== src/Dial/Events.antt =====
-- What a client calls, counted, and one read of its connection.
use mathlib.Core.List.{map}
use dvactor.Base.{
  ℕ, ◌+◌, ◌≡◌, inl, inr, refl, ap, ap₂, panics, sym, ◌∙◌, ◌||◌, List, [], ◌∷◌, ◌++◌, Bool-cases,
  arith, returns, returns-injective,
}
use dvactor.Packet.{Bytes, Frame, Drained, Stop, waiting, crashed, out_of_fuel, on_data}
use dvactor.Dial.{is_nil, NetClient, Event, connects, disconnects, hands, handed, received}

-- The messages among the calls, and how often the beginning and the end were told.
abbrev pub messages : List Event → List Frame
messages [] = []
messages (connects ∷ es) = messages es
messages (disconnects ∷ es) = messages es
messages (hands f ∷ es) = f ∷ messages es

abbrev pub begun : List Event → ℕ
begun [] = 0
begun (connects ∷ es) = 1 + begun es
begun (disconnects ∷ es) = begun es
begun (hands f ∷ es) = begun es

abbrev pub ended : List Event → ℕ
ended [] = 0
ended (connects ∷ es) = ended es
ended (disconnects ∷ es) = 1 + ended es
ended (hands f ∷ es) = ended es

-- What more calls add.
pub record Adds (es more : List Event) : Type 0 where
  pub handing : messages (es ++ more) ≡ messages es ++ messages more
  pub beginning : begun (es ++ more) ≡ begun es + begun more
  pub ending : ended (es ++ more) ≡ ended es + ended more

pub es-Adds : (es more : List Event) → Adds es more
es-Adds [] more = record { handing = refl; beginning = omega arith; ending = omega arith }
es-Adds (connects ∷ es) more =
    let a = es-Adds es more in
    record { handing = a.handing; beginning = omega (arith, a.beginning); ending = a.ending }
es-Adds (disconnects ∷ es) more =
    let a = es-Adds es more in
    record { handing = a.handing; beginning = a.beginning; ending = omega (arith, a.ending) }
es-Adds (hands f ∷ es) more =
    let a = es-Adds es more in
    record { handing = ap (λ fs. f ∷ fs) a.handing; beginning = a.beginning; ending = a.ending }

-- A list of messages only.
messages-map : (fs : List Frame) → messages (map hands fs) ≡ fs
messages-map [] = refl
messages-map (f ∷ fs) = ap (λ l. f ∷ l) (messages-map fs)

counts-map : (fs : List Frame) → (begun (map hands fs) ≡ 0) × (ended (map hands fs) ≡ 0)
counts-map [] = (refl, refl)
counts-map (f ∷ fs) = counts-map fs

-- One read that does not panic.
pub record Reads (cl : NetClient) (bytes : Bytes) (r : List Event × NetClient) : Type 0 where
  pub cuts :
      on_data cl.splitter bytes ≡ record { frames = messages r.0; stop = waiting r.1.splitter }
  pub no_begin : begun r.0 ≡ 0
  pub no_end : ended r.0 ≡ 0

handed-lem :
    (cl : NetClient) (fs : List Frame) (stop : Stop) {r : List Event × NetClient}
    → handed cl fs stop ≡ returns r
    → (r.0 ≡ map hands fs) × (stop ≡ waiting r.1.splitter)
unfolding handed
handed-lem cl fs (waiting rest) {r} e = elim (Bool-cases (cl.on_message || is_nil fs)) [
  | inl q ↦
      let same = returns-injective (rw q at e) in
      (
        ap (λ (t : List Event × NetClient). t.0) (sym same),
        ap (λ (t : List Event × NetClient). waiting t.1.splitter) same,
      )
  | inr q ↦ let never : panics ≡ returns r = rw q at e in cc
]
handed-lem cl fs crashed e = cc
handed-lem cl fs out_of_fuel e = cc

abbrev pub drained : List Frame → Stop → Drained
drained fs stop = record { frames = fs; stop = stop }

pub received-Reads :
    (cl : NetClient) (bytes : Bytes) {r : List Event × NetClient}
    → received cl bytes ≡ returns r
    → Reads cl bytes r
unfolding received
received-Reads cl bytes {r} e =
    let d = on_data cl.splitter bytes in
    let (a, b) = handed-lem cl d.frames d.stop e in
    record {
      cuts = ap₂ (λ fs stop. drained fs stop) (sym (ap messages a ∙ messages-map d.frames)) b;
      no_begin = ap begun a ∙ (counts-map d.frames).0;
      no_end = ap ended a ∙ (counts-map d.frames).1;
    }
