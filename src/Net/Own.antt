-- ===== src/Net/Own.antt =====
-- What the calls of a server mean for one connection.
use mathlib.Core.List.{map}
use dvactor.Base.{
  ℕ, ◌≡◌, refl, sym, Bool, false, ◌||◌, List, [], ◌∷◌, ◌++◌, if◌then◌else◌, ◌==◌, ==_iff, arith,
  returns, returns-of->>=, returns-injective,
}
use dvactor.Packet.{Bytes, Frame, Stop, waiting, crashed, out_of_fuel, on_data}
use dvactor.Net.{
  NetServer, Call, accepts, reads, loses, Event, connects, hands, disconnects, on_accept, handed,
  on_lost, call, run,
}

-- The messages handed over with session `k`.
abbrev pub messages : ℕ → List Event → List Frame
messages k [] = []
messages k (connects j ∷ es) = messages k es
messages k (hands j f ∷ es) = let rest = messages k es in if j == k then f ∷ rest else rest
messages k (disconnects j ∷ es) = messages k es

-- What connection `k` reads.
abbrev pub chunks_of : ℕ → List Call → List Bytes
chunks_of k [] = []
chunks_of k (accepts j ∷ cs) = chunks_of k cs
chunks_of k (reads j bytes ∷ cs) =
    let rest = chunks_of k cs in if j == k then bytes ∷ rest else rest
chunks_of k (loses j ∷ cs) = chunks_of k cs

abbrev pub accepted : ℕ → List Call → Bool
accepted k [] = false
accepted k (accepts j ∷ cs) = (j == k) || accepted k cs
accepted k (reads j bytes ∷ cs) = accepted k cs
accepted k (loses j ∷ cs) = accepted k cs

pub messages-append :
    (k : ℕ) (xs ys : List Event) → messages k (xs ++ ys) ≡ messages k xs ++ messages k ys
messages-append k [] ys = refl
messages-append k (connects j ∷ es) ys = messages-append k es ys
messages-append k (hands j f ∷ es) ys = ground (arith, messages-append k es ys)
messages-append k (disconnects j ∷ es) ys = messages-append k es ys

messages-map_same : (k : ℕ) (fs : List Frame) → messages k (map (hands k) fs) ≡ fs
messages-map_same k [] = refl
messages-map_same k (f ∷ fs) = ground (arith, messages-map_same k fs, (==_iff k k).1 refl)

messages-map_other :
    (k j : ℕ) (fs : List Frame) → (j == k) ≡ false → messages k (map (hands j) fs) ≡ []
messages-map_other k j [] h = refl
messages-map_other k j (f ∷ fs) h = rw h (messages-map_other k j fs h)

-- One read of connection `k`, and of another one.
handed_same :
    (k : ℕ) (gs : List Frame) (stop : Stop) (st : NetServer) {p : List Event × NetServer}
    → handed k gs stop st ≡ returns p
    → (stop ≡ waiting (p.1.splitters k)) × (messages k p.0 ≡ gs)
unfolding handed
handed_same k gs (waiting rest) st e =
    rw (← returns-injective e) (ground arith, messages-map_same k gs)
handed_same k gs crashed st e = cc
handed_same k gs out_of_fuel st e = cc

handed_other :
    (k j : ℕ) (gs : List Frame) (stop : Stop) (st : NetServer) {p : List Event × NetServer}
    → (j == k) ≡ false
    → handed j gs stop st ≡ returns p
    → (messages k p.0 ≡ []) × (p.1.splitters k ≡ st.splitters k)
unfolding handed
handed_other k j gs (waiting rest) st h e =
    rw (← returns-injective e) (messages-map_other k j gs h, ground arith)
handed_other k j gs crashed st h e = cc
handed_other k j gs out_of_fuel st h e = cc

-- A run that does not panic is a first call and the run of the others.
pub record Splits (c : Call) (cs : List Call) (st : NetServer) (r : List Event × NetServer)
    : Type 0 where
  pub first : List Event × NetServer
  pub others : List Event × NetServer
  pub called : call c st ≡ returns first
  pub went_on : run cs first.1 ≡ returns others
  pub all : r ≡ (first.0 ++ others.0, others.1)

pub run-Splits :
    {c : Call} {cs : List Call} {st : NetServer} {r : List Event × NetServer}
    → run (c ∷ cs) st ≡ returns r
    → Splits c cs st r
unfolding run
run-Splits {c} {cs} {st} e =
    let (p, f, g) = returns-of->>= (call c st) _ e in
    let (t, h, i) = returns-of->>= (run cs p.1) _ g in
    record { first = p; others = t; called = f; went_on = h; all = sym (returns-injective i) }

-- What a call changes for connection `k`.
pub call_same :
    (k : ℕ) (bytes : Bytes) (st : NetServer) {p : List Event × NetServer}
    → call (reads k bytes) st ≡ returns p
    → on_data (st.splitters k) bytes
      ≡ record { frames = messages k p.0; stop = waiting (p.1.splitters k) }
unfolding call
call_same k bytes st e =
    let d = on_data (st.splitters k) bytes in
    let (a, b) = handed_same k d.frames d.stop st e in rw (b, ← a) refl

unfoldable pub is_for : ℕ → Call → Bool
is_for k (accepts j) = j == k
is_for k (reads j bytes) = j == k
is_for k (loses j) = false

pub call_other :
    (k : ℕ) (c : Call) (st : NetServer) {p : List Event × NetServer}
    → is_for k c ≡ false
    → call c st ≡ returns p
    → (messages k p.0 ≡ []) × (p.1.splitters k ≡ st.splitters k)
unfolding call on_accept on_lost is_for
call_other k (accepts j) st h e = rw (← returns-injective e) (refl, ground (arith, h))
call_other k (reads j bytes) st h e = handed_other k j _ _ st h e
call_other k (loses j) st h e = rw (← returns-injective e) (refl, refl)

pub chunks_other :
    (k : ℕ) (c : Call) (cs : List Call) → is_for k c ≡ false → chunks_of k (c ∷ cs) ≡ chunks_of k cs
unfolding is_for
chunks_other k (accepts j) cs h = refl
chunks_other k (reads j bytes) cs h = rw h refl
chunks_other k (loses j) cs h = refl
