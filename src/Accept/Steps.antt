-- ===== src/Accept/Steps.antt =====
-- In which order the server is called for a connection.
use dvactor.Base.{
  ℕ, ◌+◌, ◌≤◌, ◌<◌, ◌≡◌, ◌≢◌, refl, ap, Bool, true, Option, none, some, List, [], ◌∷◌, ◌++◌,
  if◌then◌else◌, ◌==◌, ==_iff, arith,
}
use dvactor.Packet.{Bytes}
use dvactor.Net.{NetServer, accepts, reads, loses, Event}
use dvactor.Accept.{
  Place, opening, accepting, calling, receiving, sending, returned, Acceptor, new_acceptor,
  listened, served, accepted, go_receiver, go_sender, stop, times, Step, listens, takes, fails,
  calls_back, starts_receiver, starts_sender, receives, ends_told, ends_silently, sender_ends,
  stops, Reach, here, further,
}
use dvactor.Accept.Phases.{unknown, up, wrong, phase}
use dvactor.Accept.Order.{
  times-append, waiting, ready, IsOrdered, new_acceptor-IsOrdered, same_calls, takes-IsOrdered,
  Calls, Calls-IsOrdered,
}

accepted-Calls :
    {a : Acceptor} (k : ℕ) (r : List Event × NetServer)
    → a.place ≡ calling k
    → IsOrdered a
    → Calls a (accepted a k r) (accepts k) unknown
unfolding accepted
accepted-Calls {a} k r p v =
    let w : (i : ℕ) → times i (waiting a.place) ≡ (if k == i then 1 else 0) =
      λ i. omega (arith, ap (λ q. times i (waiting q)) p) in
    let l : (i : ℕ) → times i (ready a.place) ≡ 0 = λ i. ap (λ q. times i (ready q)) p in
    let self = (==_iff k k).1 refl in
    record {
      called = refl;
      same_made = refl;
      before = v.unseen k (ground (arith, w k, self, v.once k, v.placed k));
      proper = λ e. cc;
      total = λ i. omega (arith, w i, l i);
      waits = λ i m. ground (arith, w i, m);
      lives = λ i. omega (arith, l i);
      seen = λ e. ground (arith, e, w k, self, v.placed k);
      still = λ h. refl;
    }

reads-Calls :
    {a : Acceptor} (before after : List ℕ) (k : ℕ) (bytes : Bytes) (r : List Event × NetServer)
    → a.receivers ≡ before ++ (k ∷ after)
    → IsOrdered a
    → Calls a (served a (reads k bytes) r) (reads k bytes) up
reads-Calls {a} before after k bytes r e v =
    let self = (==_iff k k).1 refl in
    let there : 0 < times k a.receivers =
      ground (arith, self, ap (times k) e, times-append k before (k ∷ after)) in
    record {
      called = refl;
      same_made = refl;
      before = v.open_yet k (omega (arith, there));
      proper = λ e. cc;
      total = λ i. omega arith;
      waits = λ i m. refl;
      lives = λ i. omega arith;
      seen = λ e. omega (arith, e, there, v.placed k);
      still = λ h. refl;
    }

loses-Calls :
    {a : Acceptor} (before after : List ℕ) (k : ℕ) (r : List Event × NetServer)
    → a.receivers ≡ before ++ (k ∷ after)
    → IsOrdered a
    → Calls a (record (served a (loses k) r) { receivers = before ++ after }) (loses k) up
loses-Calls {a} before after k r e v =
    let self = (==_iff k k).1 refl in
    let there : (i : ℕ)
        → times i a.receivers ≡ times i (before ++ after) + (if k == i then 1 else 0) =
      λ i.
        ground
          (arith, ap (times i) e, times-append i before (k ∷ after), times-append i before after) in
    record {
      called = refl;
      same_made = refl;
      before = v.open_yet k (ground (arith, there k, self));
      proper = λ e. cc;
      total = λ i. omega (arith, there i);
      waits = λ i m. refl;
      lives = λ i. omega (arith, there i);
      seen = λ e. ground (arith, e, there k, self, v.placed k);
      still = λ h. absurd (ground (arith, h, there k, self, v.placed k, v.once k));
    }

-- A step of the acceptor alone, from one place to another.
moved-IsOrdered :
    {a : Acceptor} (from to : Place) (listener : Option Bool) (started senders : List ℕ)
    → a.place ≡ from
    → ((k : ℕ) → times k (waiting to) ≡ times k (waiting from))
    → ((k : ℕ) → times k (ready to) + times k started ≤ times k (ready from))
    → IsOrdered a
    → IsOrdered (record a {
      place = to;
      listener = listener;
      receivers = started ++ a.receivers;
      senders = senders;
    })
moved-IsOrdered {a} from to listener started senders p w l v =
    same_calls refl refl (λ k. omega (arith, w k, ap (λ q. times k (waiting q)) p))
      (λ k. omega (arith, l k, times-append k started a.receivers, ap (λ q. times k (ready q)) p)) v

Step-IsOrdered : {a b : Acceptor} → Step a b → IsOrdered a → IsOrdered b
unfolding listened go_receiver go_sender stop
Step-IsOrdered {a} (listens none p) v =
    moved-IsOrdered opening accepting (some true) [] a.senders p (λ k. refl) (λ k. omega arith) v
Step-IsOrdered {a} (listens (some err) p) v =
    moved-IsOrdered opening (returned err) a.listener [] a.senders p (λ k. refl) (λ k. omega arith)
      v
Step-IsOrdered (takes k p o new) v = takes-IsOrdered k p new v
Step-IsOrdered {a} (fails err p) v =
    moved-IsOrdered accepting (returned err) a.listener [] a.senders p (λ k. refl)
      (λ k. omega arith) v
Step-IsOrdered (calls_back k {r} p e) v = Calls-IsOrdered (accepted-Calls k r p v) v
Step-IsOrdered {a} (starts_receiver k p) v =
    moved-IsOrdered (receiving k) (sending k) a.listener (k ∷ []) a.senders p (λ i. refl)
      (λ i. omega arith) v
Step-IsOrdered {a} (starts_sender k p) v =
    moved-IsOrdered (sending k) accepting a.listener [] (k ∷ a.senders) p (λ i. refl)
      (λ i. omega arith) v
Step-IsOrdered (receives before after k bytes {r} e c) v =
    Calls-IsOrdered (reads-Calls before after k bytes r e v) v
Step-IsOrdered (ends_told before after k {r} e c) v =
    Calls-IsOrdered (loses-Calls before after k r e v) v
Step-IsOrdered (ends_silently before after k e) v =
    same_calls refl refl (λ i. refl)
      (λ i.
        ground
          (arith, ap (times i) e, times-append i before (k ∷ after), times-append i before after))
      v
Step-IsOrdered (sender_ends before after k e) v =
    same_calls refl refl (λ i. refl) (λ i. omega arith) v
Step-IsOrdered stops v = same_calls refl refl (λ i. refl) (λ i. omega arith) v

pub Reach-IsOrdered : {a b : Acceptor} → Reach a b → IsOrdered a → IsOrdered b
Reach-IsOrdered here v = v
Reach-IsOrdered (further r st) v = Step-IsOrdered st (Reach-IsOrdered r v)

-- Whatever the acceptor, the goroutines of the connections and `Stop` do, in any order: for every
-- connection the server is called in order, with one accept first, then any reads, and then one loss
-- at most, and nothing more.
pub called_in_order : {a : Acceptor} (k : ℕ) → Reach new_acceptor a → phase k a.calls ≢ wrong
called_in_order k r = (Reach-IsOrdered r new_acceptor-IsOrdered).in_order k
