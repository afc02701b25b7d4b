-- ===== src/Cluster/Client/Shown.antt =====
-- What the client shows of its connection in `info.cli` and in the counter.
use dvactor.Base.{
  ℕ, ◌+◌, ◌%◌, ◌^◌, ◌≡◌, ◌⊎◌, inl, inr, refl, sym, ◌∙◌, Bool, true, Option, none, some,
  some-injective, subst,
}
use dvactor.Vactor.{Vactor, Protobuf}
use dvactor.System.{System}
use dvactor.Wire.Link.{Codec}
use dvactor.Cluster.{Registration}
use dvactor.Cluster.Client.{
  Place, top, dialing, registering, waiting, storing, raising, ready, resetting, lowering, Phase,
  over, Client, new_cluster_client, Reach,
}
use dvactor.Cluster.Client.Holds.{
  is_some, keeps_client, HasClient, Reach-HasClient, new_cluster_client-HasClient,
}
use dvactor.Cluster.Client.Always.{Reach-IsRight, new_cluster_client-IsRight}
use dvactor.Cluster.Client.Right.{weight, shown, watching, watched, IsRight}

-- Where `info.cli` can hold a client.
pub data Shows : Place → Type 0 where
  at_raising : Shows raising
  at_ready : Shows ready
  at_resetting : Shows resetting

shown-Shows : (q : Place) (cli : Option ℕ) (k : ℕ) → shown q cli ≡ some k → Shows q × (cli ≡ some k)
shown-Shows top cli k e = cc
shown-Shows dialing cli k e = cc
shown-Shows registering cli k e = cc
shown-Shows waiting cli k e = cc
shown-Shows storing cli k e = cc
shown-Shows raising cli k e = (at_raising, e)
shown-Shows ready cli k e = (at_ready, e)
shown-Shows resetting cli k e = (at_resetting, e)
shown-Shows lowering cli k e = cc

Shows-watching : {q : Place} → Shows q → (watching q ≡ true) ⊎ (q ≡ resetting)
Shows-watching at_raising = inl refl
Shows-watching at_ready = inl refl
Shows-watching at_resetting = inr refl

watched_end : (p : Phase) (full : Bool) → p ≡ over → watched p full ≡ true → full ≡ true
watched_end p full e h = rw e at h

-- A client that `info.cli` holds is the one of `c.cli`, and its end is seen.
module _ {w : Client} (r : IsRight w) {k : ℕ} (e : w.info_cli ≡ some k) where
  pub place-Shows : Shows w.place
  place-Shows = (shown-Shows w.place w.cli k (sym r.given ∙ e)).0

  end_seen : (watched (w.phase k) w.disconnect_chan ≡ true) ⊎ (w.place ≡ resetting)
  end_seen = elim (Shows-watching place-Shows) [
    | inl h ↦
        let x = r.live h in
        let cli = (shown-Shows w.place w.cli k (sym r.given ∙ e)).1 in
        let same : x.number ≡ k = some-injective (sym x.mine ∙ cli) in
        inl (subst (λ (j : ℕ). watched (w.phase j) w.disconnect_chan ≡ true) same x.seen)
    | inr h ↦ inr h
  ]

-- What `info.cli` and `c.cli` hold at each place.
abbrev pub BothHold : Client → Type 0
BothHold w = (k : ℕ) × (w.cli ≡ some k) × (w.info_cli ≡ some k)

abbrev pub ShowsClient : Place → Client → Type 0
ShowsClient raising w = BothHold w
ShowsClient ready w = BothHold w
ShowsClient resetting w = BothHold w
ShowsClient _ w = w.info_cli ≡ none

is_client : (o : Option ℕ) → is_some o ≡ true → (k : ℕ) × (o ≡ some k)
is_client none h = cc
is_client (some k) h = (k, refl)

IsRight-ShowsClient : {w : Client} → IsRight w → HasClient w → ShowsClient w.place w
IsRight-ShowsClient {w} r h = go w.place r.given h
  where
    both : is_some w.cli ≡ true → w.info_cli ≡ w.cli → BothHold w
    both e f = let (k, g) = is_client w.cli e in (k, g, f ∙ g)

    go :
        (q : Place)
        → w.info_cli ≡ shown q w.cli
        → (keeps_client q ≡ true → is_some w.cli ≡ true)
        → ShowsClient q w
    go top f h = f
    go dialing f h = f
    go registering f h = f
    go waiting f h = f
    go storing f h = f
    go raising f h = both (h refl) f
    go ready f h = both (h refl) f
    go resetting f h = both (h refl) f
    go lowering f h = f

module _ (v : Vactor) (pb : Protobuf) (c : Codec) (g : Registration) (s : System v pb) where
  -- At every moment after the client starts, from the lock that sets `info.cli` to the lock that
  -- resets it, `c.cli` is a client, and `info.cli` holds that client; at all other moments `info.cli`
  -- is nil; and `connectedSystemCount` is what the others added, plus one from the goroutine's
  -- `AddInt32` of 1 to that of -1, modulo 2^32.
  pub client_shows :
      (w : Client)
      → Reach v pb c g s new_cluster_client w
      → ShowsClient w.place w × (w.connected ≡ (w.others + weight w.place) % 2 ^ 32)
  client_shows w p =
      let r = Reach-IsRight new_cluster_client-IsRight p in
      (IsRight-ShowsClient r (Reach-HasClient p new_cluster_client-HasClient), r.counted)

  -- At every moment after the client starts, when the connection of the client in `info.cli` has
  -- ended, the end waits in `disconnectChan`, or the goroutine has received it and is about to reset
  -- `info.cli`: no end is missed, whatever the connections before it did.
  pub end_not_missed :
      (w : Client) (k : ℕ)
      → Reach v pb c g s new_cluster_client w
      → w.info_cli ≡ some k
      → w.phase k ≡ over
      → (w.disconnect_chan ≡ true) ⊎ (w.place ≡ resetting)
  end_not_missed w k p e h = elim (end_seen (Reach-IsRight new_cluster_client-IsRight p) e) [
    | inl t ↦ inl (watched_end (w.phase k) w.disconnect_chan h t)
    | inr t ↦ inr t
  ]
