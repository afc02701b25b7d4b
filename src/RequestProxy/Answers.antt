-- ===== src/RequestProxy/Answers.antt =====
-- Every request through a proxy gets one response, and no proxy waits.
use dvactor.Base.{
  some-injective, ℕ, ◌+◌, ◌≤◌, ◌<◌, ◌≡◌, inl, inr, refl, ap, sym, ◌∙◌, Option, none, some, List, [],
  ◌∷◌, ◌++◌, length, length-append, ltb, if◌then◌else◌, ◌==◌, ==_iff, at_same, Bool-cases, arith,
}
use dvactor.Vactor.{Value, Response}
use dvactor.RequestProxy.{
  Ask, Chan, on_message, put_chan, write_chan, callback, World, quiet, made_times, Step, requested,
  told, handled, answered, read, Reach, here, further,
}

length-zero : {A : Type 0} (xs : List A) → length xs ≡ 0 → xs ≡ []
length-zero [] e = refl
length-zero (x ∷ xs) e = absurd (omega (arith, e))

module _ {P : Type 0} where
  -- How many messages on their way to a proxy, and how many callbacks, are for a channel.
  abbrev pub asked_on : ℕ → List (Ask P) → ℕ
  asked_on c [] = 0
  asked_on c (ask ∷ asked) = (if ask.rsp_chan == c then 1 else 0) + asked_on c asked

  abbrev pub sent_on : ℕ → List (Value P) → ℕ
  sent_on c [] = 0
  sent_on c (m ∷ sent) = asked_on c (on_message m) + sent_on c sent

  asked_on-append :
      (c : ℕ) (xs ys : List (Ask P)) → asked_on c (xs ++ ys) ≡ asked_on c xs + asked_on c ys
  asked_on-append c [] ys = omega arith
  asked_on-append c (ask ∷ xs) ys = omega (arith, asked_on-append c xs ys)

  sent_on-append :
      (c : ℕ) (xs ys : List (Value P)) → sent_on c (xs ++ ys) ≡ sent_on c xs + sent_on c ys
  sent_on-append c [] ys = omega arith
  sent_on-append c (m ∷ xs) ys = omega (arith, sent_on-append c xs ys)

  -- Each request is at one place of its way: on the way to a proxy, with the library, in its channel,
  -- or read.
  abbrev pub places : ℕ → World P → ℕ
  places c w = sent_on c w.sent + asked_on c w.asked + length (w.chans c).items + length (w.taken c)

  record IsCounted (w : World P) : Type 0 where
    once : (c : ℕ) → made_times c w.made ≤ 1
    counted : (c : ℕ) → places c w ≡ made_times c w.made
    roomy : (c : ℕ) → 0 < made_times c w.made → (w.chans c).capacity ≡ 1

  -- What a write leaves: one item more, and the same capacity.
  write_chan_lem :
      (rsp : Response P) (chan : Chan P) {out : Chan P}
      → write_chan rsp chan ≡ some out
      → (length out.items ≡ length chan.items + 1) × (out.capacity ≡ chan.capacity)
  unfolding write_chan
  write_chan_lem rsp chan {out} e = elim (Bool-cases (ltb (length chan.items) chan.capacity)) [
    | inl b ↦
        let same : some (record chan { items = chan.items ++ (rsp ∷ []) }) ≡ some out = rw b at e in
        let made = some-injective same in
        (
          ap (λ (o : Chan P). length o.items) (sym made) ∙ length-append chan.items (rsp ∷ []),
          ap (λ (o : Chan P). o.capacity) (sym made),
        )
    | inr b ↦ let stuck : none ≡ some out = rw b at e in cc
  ]

  -- What the channels are when one of them is replaced.
  length-put_chan :
      (c : ℕ) (chan : Chan P) (chans : ℕ → Chan P) (i : ℕ)
      → length (put_chan c chan chans i).items
        ≡ (if i == c then length chan.items else length (chans i).items)
  length-put_chan c chan chans i = ground arith

  capacity-put_chan :
      (c : ℕ) (chan : Chan P) (chans : ℕ → Chan P) (i : ℕ)
      → (put_chan c chan chans i).capacity ≡ (if i == c then chan.capacity else (chans i).capacity)
  capacity-put_chan c chan chans i = ground arith

  length-taken :
      (c i : ℕ) (rsp : Response P) (taken : List (Response P))
      → length (if i == c then taken ++ (rsp ∷ []) else taken)
        ≡ (if i == c then length taken + 1 else length taken)
  length-taken c i rsp taken = ground (arith, length-append taken (rsp ∷ []))

  Step-IsCounted : {w u : World P} → Step w u → IsCounted w → IsCounted u
  unfolding on_message callback
  Step-IsCounted {w} (requested to message c new) v = record {
    once = λ i. ground (arith, v.once i, ==_iff c i, ==_iff i c);
    counted = λ i. ground (
      arith,
      v.counted i,
      new,
      at_same (λ x. made_times x w.made) i c,
      length-put_chan c (record { capacity = 1; items = [] }) w.chans i,
      ==_iff i c,
      ==_iff c i,
    );
    roomy = λ i h. ground (
      arith,
      h,
      v.roomy i,
      capacity-put_chan c (record { capacity = 1; items = [] }) w.chans i,
      ==_iff i c,
      ==_iff c i,
    );
  }
  Step-IsCounted {w} (told m e) v = record {
    once = v.once;
    counted = λ i. omega (arith, v.counted i, ap (asked_on i) e);
    roomy = v.roomy;
  }
  Step-IsCounted {w} (handled before after m e) v = record {
    once = v.once;
    counted = λ i. omega (
      arith,
      v.counted i,
      ap (sent_on i) e,
      sent_on-append i before (m ∷ after),
      sent_on-append i before after,
      asked_on-append i (on_message m) w.asked,
    );
    roomy = v.roomy;
  }
  Step-IsCounted {w} (answered before after ask msg err {chan} e q) v = record {
    once = v.once;
    counted = λ i. ground (
      arith,
      v.counted i,
      ap (asked_on i) e,
      asked_on-append i before (ask ∷ after),
      asked_on-append i before after,
      write_chan_lem (record { error = err; message = msg }) (w.chans ask.rsp_chan) q,
      length-put_chan ask.rsp_chan chan w.chans i,
      at_same (λ x. length (w.chans x).items) i ask.rsp_chan,
      ==_iff i ask.rsp_chan,
      ==_iff ask.rsp_chan i,
    );
    roomy = λ i h. ground (
      arith,
      v.roomy i h,
      write_chan_lem (record { error = err; message = msg }) (w.chans ask.rsp_chan) q,
      capacity-put_chan ask.rsp_chan chan w.chans i,
      at_same (λ x. (w.chans x).capacity) i ask.rsp_chan,
    );
  }
  Step-IsCounted {w} (read c rsp rest e) v = record {
    once = v.once;
    counted = λ i. ground (
      arith,
      v.counted i,
      ap (length {A = Response P}) e,
      length-put_chan c (record { capacity = (w.chans c).capacity; items = rest }) w.chans i,
      length-taken c i rsp (w.taken i),
      at_same (λ x. length (w.chans x).items) i c,
    );
    roomy = λ i h. ground (
      arith,
      v.roomy i h,
      capacity-put_chan c (record { capacity = (w.chans c).capacity; items = rest }) w.chans i,
      at_same (λ x. (w.chans x).capacity) i c,
    );
  }

  Reach-IsCounted : {w u : World P} → Reach w u → IsCounted w → IsCounted u
  Reach-IsCounted here v = v
  Reach-IsCounted (further r st) v = Step-IsCounted st (Reach-IsCounted r v)

  quiet-IsCounted : IsCounted quiet
  quiet-IsCounted = record {
    once = λ c. omega arith;
    counted = λ c. refl;
    roomy = λ c h. absurd (omega (arith, h));
  }

  write_empty :
      (rsp : Response P) (chan : Chan P)
      → chan.capacity ≡ 1
      → chan.items ≡ []
      → write_chan rsp chan ≡ some (record { capacity = 1; items = rsp ∷ [] })
  unfolding write_chan
  write_empty rsp chan e q = rw (e, q) refl

  -- In whatever order requests come, proxies handle them, the library answers and goroutines read or
  -- give up, when the library answers a request, the callback does not wait: it leaves the response,
  -- and nothing else, in the channel of the request; and no other callback under way is for that
  -- channel, and nothing was read from it before.
  pub answered_once :
      {w : World P} (before after : List (Ask P)) (ask : Ask P) (msg : Value P) (err : Option ℕ)
      → Reach quiet w
      → w.asked ≡ before ++ (ask ∷ after)
      → (callback ask msg err w.chans
          ≡ some (record { capacity = 1; items = record { error = err; message = msg } ∷ [] }))
        × (asked_on ask.rsp_chan (before ++ after) ≡ 0)
        × (w.taken ask.rsp_chan ≡ [])
  unfolding callback
  answered_once {w} before after ask msg err r e =
      let c = ask.rsp_chan in
      let v = Reach-IsCounted r quiet-IsCounted in
      let there : asked_on c w.asked ≡ asked_on c (before ++ after) + 1 = ground (
        arith,
        ap (asked_on c) e,
        asked_on-append c before (ask ∷ after),
        asked_on-append c before after,
        (==_iff c c).1 refl,
      ) in
      (
        write_empty (record { error = err; message = msg }) (w.chans c)
            (v.roomy c (omega (arith, there, v.counted c)))
            (length-zero (w.chans c).items (omega (arith, there, v.counted c, v.once c))),
        omega (arith, there, v.counted c, v.once c),
        length-zero (w.taken c) (omega (arith, there, v.counted c, v.once c)),
      )

  -- In every state that is reached so, every request that was made has one place: its message is on
  -- the way to a proxy, the library has it, its response lies in its channel, or its response was
  -- read from there, once.
  pub placed_once :
      {w : World P} (c : ℕ)
      → Reach quiet w
      → (places c w ≡ made_times c w.made) × (made_times c w.made ≤ 1)
  placed_once c r = let v = Reach-IsCounted r quiet-IsCounted in (v.counted c, v.once c)
