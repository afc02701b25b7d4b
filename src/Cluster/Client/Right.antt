-- ===== src/Cluster/Client/Right.antt =====
-- What should hold of the client, and the kinds of moves that keep it.
use dvactor.Base.{
  ℕ, ◌+◌, ◌%◌, ◌^◌, ◌≡◌, inl, inr, refl, sym, subst, ◌∙◌, Bool, true, false, Option, none, some,
  ◌==◌, ==_iff, Bool-cases, arith,
}
use dvactor.Cluster.Client.{
  Place, registering, waiting, storing, raising, ready, resetting, lowering, Phase, unmade, up,
  lost, closed, over, Client, move,
}

-- What the client has added to the counter.
abbrev pub weight : Place → ℕ
weight ready = 1
weight resetting = 1
weight lowering = 1
weight _ = 0

-- The value of `info.cli`.
abbrev pub shown : Place → Option ℕ → Option ℕ
shown raising cli = cli
shown ready cli = cli
shown resetting cli = cli
shown _ cli = none

-- From `SendMessage` on, the goroutine waits for the end of its connection.
abbrev pub watching : Place → Bool
watching registering = true
watching waiting = true
watching storing = true
watching raising = true
watching ready = true
watching _ = false

-- The connection has not ended, or its end is in the channel.
abbrev pub watched : Phase → Bool → Bool
watched up full = true
watched lost full = true
watched over full = full
watched _ full = false

pub record IsWatched (w : Client) : Type 0 where
  pub number : ℕ
  pub mine : w.cli ≡ some number
  pub seen : watched (w.phase number) w.disconnect_chan ≡ true

pub record IsRight (w : Client) : Type 0 where
  pub counted : w.connected ≡ (w.others + weight w.place) % 2 ^ 32
  pub given : w.info_cli ≡ shown w.place w.cli
  pub live : watching w.place ≡ true → IsWatched w

watched-stays :
    (p : Phase) (d full : Bool)
    → (d ≡ true → full ≡ true)
    → watched p d ≡ true
    → watched p full ≡ true
watched-stays unmade d full f h = cc
watched-stays up d full f h = refl
watched-stays lost d full f h = refl
watched-stays closed d full f h = cc
watched-stays over d full f h = f h

moved-watched :
    (phase : ℕ → Phase) (d full : Bool) (k j : ℕ) (p : Phase)
    → (watched (phase k) d ≡ true → watched p full ≡ true)
    → (d ≡ true → full ≡ true)
    → watched (phase j) d ≡ true
    → watched (move k p phase j) full ≡ true
moved-watched phase d full k j p keeps stays h = elim (Bool-cases (j == k)) [
  | inl e ↦ rw e (keeps (subst (λ (i : ℕ). watched (phase i) d ≡ true) ((==_iff j k).0 e) h))
  | inr e ↦ rw e (watched-stays (phase j) d full stays h)
]

pub move_here : (k : ℕ) (p : Phase) (phase : ℕ → Phase) → move k p phase k ≡ p
move_here k p phase = ground arith

-- A receiver's move: connection `k` goes to `p`, and the channel stays full if it is.
pub receiver-IsRight :
    (w : Client) (k : ℕ) (p : Phase) (full : Bool) (reply : Option Bool)
    → (watched (w.phase k) w.disconnect_chan ≡ true → watched p full ≡ true)
    → (w.disconnect_chan ≡ true → full ≡ true)
    → IsRight w
    → IsRight (record w { disconnect_chan = full; register_chan = reply; phase = move k p w.phase })
receiver-IsRight w k p full reply keeps stays r = record {
  counted = r.counted;
  given = r.given;
  live = λ h.
      let x = r.live h in
      record {
        number = x.number;
        mine = x.mine;
        seen = moved-watched w.phase w.disconnect_chan full k x.number p keeps stays x.seen;
      };
}

-- A move of the goroutine to a place where it does not watch.
pub away-IsRight :
    (w : Client) (q : Place) (full : Bool) (reply : Option Bool) (made : ℕ) (cli : Option ℕ)
    (phase : ℕ → Phase)
    → weight q ≡ weight w.place
    → shown q cli ≡ shown w.place w.cli
    → watching q ≡ false
    → IsRight w
    → IsRight (record w {
      place = q;
      cli = cli;
      disconnect_chan = full;
      register_chan = reply;
      made = made;
      phase = phase;
    })
away-IsRight w q full reply made cli phase e f n r = record {
  counted = rw e r.counted;
  given = r.given ∙ sym f;
  live = λ h. cc;
}

-- A move of the goroutine from a place where it watches to the next.
pub on-IsRight :
    (w : Client) (q : Place) (reply : Option Bool) (added : ℕ) (given : Option ℕ)
    → watching w.place ≡ true
    → weight w.place ≡ 0
    → (w.connected ≡ w.others % 2 ^ 32 → added ≡ (w.others + weight q) % 2 ^ 32)
    → given ≡ shown q w.cli
    → IsRight w
    → IsRight (record w { place = q; register_chan = reply; connected = added; info_cli = given })
on-IsRight w q reply added given h z e f r = record {
  counted = e (omega (arith, r.counted, z));
  given = f;
  live = λ _. let x = r.live h in record { number = x.number; mine = x.mine; seen = x.seen };
}

-- From here the goroutine goes back to the top and takes its count off.
pub tail-IsRight :
    (w : Client) (q : Place) (cli : Option ℕ) (n m others : ℕ)
    → (w.connected ≡ (w.others + weight w.place) % 2 ^ 32 → n ≡ (others + m) % 2 ^ 32)
    → weight q ≡ m
    → shown q cli ≡ none
    → watching q ≡ false
    → IsRight w
    → IsRight (record w { place = q; cli = cli; info_cli = none; connected = n; others = others })
tail-IsRight w q cli n m others e f g z r = record {
  counted = rw f (e r.counted);
  given = sym g;
  live = λ h. cc;
}

-- A move of another goroutine.
pub other-IsRight :
    (w : Client) (reply : Option Bool) (n others : ℕ)
    → n ≡ (others + weight w.place) % 2 ^ 32
    → IsRight w
    → IsRight (record w { register_chan = reply; connected = n; others = others })
other-IsRight w reply n others e r = record {
  counted = e;
  given = r.given;
  live = λ h. let x = r.live h in record { number = x.number; mine = x.mine; seen = x.seen };
}
