-- ===== src/Cluster/Client/Withdraws.antt =====
-- How soon `info.cli` is nil after its connection is lost.
use dvactor.Base.{
  ℕ, ◌+◌, ◌≤◌, ◌<◌, ◌≡◌, ◌⊎◌, inl, inr, refl, ap, Bool, true, false, some, Bool-cases,
  if◌then◌else◌, ◌==◌, arith,
}
use dvactor.Vactor.{Vactor, Protobuf}
use dvactor.System.{System}
use dvactor.Wire.Link.{Codec}
use dvactor.Cluster.{Registration}
use dvactor.Cluster.Client.{
  Place, raising, ready, resetting, Phase, lost, over, Client, new_cluster_client, move, raised,
  noticed, reset, on_disconnect, Step, dials, dial_ends, requests, takes_reply, takes_end, stores,
  raises, notices, resets, lowers, receives, loses, reports, ends, another_up, another_down, Reach,
  further,
}
use dvactor.Cluster.Client.Always.{Reach-IsRight, new_cluster_client-IsRight}
use dvactor.Cluster.Client.Shown.{
  Shows, at_raising, at_ready, at_resetting, place-Shows, end_not_missed,
}

-- What the goroutine and `OnDisconnect` have left to do before `info.cli` is nil: the steps of the
-- goroutine to the reset, and one more while `disconnectChan` is empty.
abbrev rank : Place → ℕ
rank raising = 4
rank ready = 3
rank resetting = 1
rank _ = 0

abbrev left_over : Client → ℕ
left_over w = rank w.place + (if w.disconnect_chan then 0 else 1)

abbrev IsGone : Phase → Type 0
IsGone p = (p ≡ lost) ⊎ (p ≡ over)

gone-move :
    (k j : ℕ) (p : Phase) (phase : ℕ → Phase)
    → IsGone (phase k)
    → IsGone p
    → IsGone (move j p phase k)
gone-move k j p phase h g = elim (Bool-cases (k == j)) [ inl e ↦ rw e g | inr e ↦ rw e h ]

Shows-rank : {q : Place} → Shows q → 0 < rank q
Shows-rank at_raising = omega arith
Shows-rank at_ready = omega arith
Shows-rank at_resetting = omega arith

-- At the other places `info.cli` is nil.
elsewhere : {q r : Place} {X : Type 0} → Shows q → q ≡ r → rank r ≡ 0 → X
elsewhere z e h = absurd (omega (arith, Shows-rank z, ap rank e))

left_over-bounds :
    {q : Place} (full : Bool)
    → Shows q
    → (1 ≤ rank q + (if full then 0 else 1)) × (rank q + (if full then 0 else 1) ≤ 5)
left_over-bounds full at_raising = ground arith
left_over-bounds full at_ready = ground arith
left_over-bounds full at_resetting = ground arith

module _ (v : Vactor) (pb : Protobuf) (c : Codec) (g : Registration) (s : System v pb) where
  -- A step of the goroutine or of `OnDisconnect` counts; those of the receivers before it, of the
  -- connections, and of the other goroutines do not.
  abbrev pub counts : {w x : Client} → Step v pb c g s w x → ℕ
  counts (receives k msg_id bytes success p f r) = 0
  counts (loses k p) = 0
  counts (ends k p) = 0
  counts another_up = 0
  counts (another_down p) = 0
  counts _ = 1

  -- Any steps of anybody, in any order, during which `info.cli` holds client `k`; of those, `n`
  -- steps of the goroutine and of `OnDisconnect`.
  pub data Holding (k : ℕ) (w : Client) : ℕ → Client → Type 0 where
    still : Holding k w 0 w
    goes_on :
        {n : ℕ} {x y : Client}
        → Holding k w n x
        → (st : Step v pb c g s x y) → y.info_cli ≡ some k
        → Holding k w (n + counts st) y

  -- Each such step takes one off what is left.
  Step-lowers :
      {w x : Client} (k : ℕ) (st : Step v pb c g s w x)
      → Shows w.place
      → x.info_cli ≡ some k
      → IsGone (w.phase k)
      → (counts st + left_over x ≤ left_over w) × IsGone (x.phase k)
  unfolding reset on_disconnect
  Step-lowers k (dials p) z e h = elsewhere z p refl
  Step-lowers k (dial_ends j ok p f) z e h = elsewhere z p refl
  Step-lowers k (requests j ok p f) z e h = elsewhere z p refl
  Step-lowers k (takes_reply j ok p f r) z e h = elsewhere z p refl
  Step-lowers k (takes_end p f) z e h = elsewhere z p refl
  Step-lowers k (stores p) z e h = elsewhere z p refl
  Step-lowers k (raises p) z e h = (omega (arith, ap rank p), h)
  Step-lowers k (notices p f) z e h = (ground (arith, ap rank p, f), h)
  Step-lowers k (resets p) z e h = cc
  Step-lowers k (lowers p) z e h = elsewhere z p refl
  Step-lowers k (receives j msg_id bytes ok p f r) z e h = (omega arith, h)
  Step-lowers {w} k (loses j p) z e h = (omega arith, gone-move k j lost w.phase h (inl refl))
  Step-lowers {w} k (reports j p f) z e h =
      (ground (arith, f), gone-move k j over w.phase h (inr refl))
  Step-lowers {w} k (ends j p) z e h = (omega arith, gone-move k j over w.phase h (inr refl))
  Step-lowers k another_up z e h = (omega arith, h)
  Step-lowers k (another_down p) z e h = (omega arith, h)

  -- What holds while `info.cli` holds the client.
  record IsEnding (k : ℕ) (w : Client) (n : ℕ) (x : Client) : Type 0 where
    reached : Reach v pb c g s new_cluster_client x
    held : x.info_cli ≡ some k
    gone : IsGone (x.phase k)
    fewer : n + left_over x ≤ left_over w

  Holding-IsEnding :
      (k : ℕ) {w x : Client} {n : ℕ}
      → Holding k w n x
      → Reach v pb c g s new_cluster_client w
      → w.info_cli ≡ some k
      → IsGone (w.phase k)
      → IsEnding k w n x
  Holding-IsEnding k still p e h = record { reached = p; held = e; gone = h; fewer = omega arith }
  Holding-IsEnding k (goes_on r st f) p e h =
      let i = Holding-IsEnding k r p e h in
      let z = place-Shows (Reach-IsRight new_cluster_client-IsRight i.reached) i.held in
      let (a, b) = Step-lowers k st z f i.gone in
      record {
        reached = further i.reached st;
        held = f;
        gone = b;
        fewer = omega (arith, i.fewer, a);
      }

  -- A step that counts is open.
  Open : Client → Type 0
  Open x = (y : Client) × (st : Step v pb c g s x y) × (counts st ≡ 1)

  Shows-Open :
      (x : Client) {q : Place} (k : ℕ)
      → Shows q
      → x.place ≡ q
      → (x.phase k ≡ lost) ⊎ ((x.disconnect_chan ≡ true) ⊎ (q ≡ resetting))
      → Open x
  unfolding Open
  Shows-Open x k at_raising p h = (raised x, raises p, refl)
  Shows-Open x k at_resetting p h = (reset x, resets p, refl)
  Shows-Open x k at_ready p h = elim (Bool-cases x.disconnect_chan) [
    | inl f ↦ (noticed x, notices p f, refl)
    | inr f ↦ told f h
  ]
    where
      told :
          x.disconnect_chan ≡ false
          → (x.phase k ≡ lost) ⊎ ((x.disconnect_chan ≡ true) ⊎ (ready ≡ resetting))
          → (y : Client) × (st : Step v pb c g s x y) × (counts st ≡ 1)
      told f (inl l) = (on_disconnect k x, reports k l f, refl)
      told f (inr (inl t)) = cc
      told f (inr (inr r)) = cc

  -- From every moment after the client starts at which the connection of the client in `info.cli` is
  -- lost or has ended, after any steps of anybody, in any order, during which `info.cli` still
  -- holds it, the goroutine and `OnDisconnect` have taken four steps at most, and one of them can
  -- take a step.
  pub end_withdraws :
      (k : ℕ) {w x : Client} {n : ℕ}
      → Reach v pb c g s new_cluster_client w
      → w.info_cli ≡ some k
      → (w.phase k ≡ lost) ⊎ (w.phase k ≡ over)
      → Holding k w n x
      → (n ≤ 4) × (y : Client) × (st : Step v pb c g s x y) × (counts st ≡ 1)
  unfolding Open
  end_withdraws k {w} {x} p e h r =
      let i = Holding-IsEnding k r p e h in
      let z = place-Shows (Reach-IsRight new_cluster_client-IsRight i.reached) i.held in
      let o = place-Shows (Reach-IsRight new_cluster_client-IsRight p) e in
      let (y, st, one) = Shows-Open x k z refl (elim i.gone [
        | inl a ↦ inl a
        | inr b ↦ inr (end_not_missed v pb c g s x k i.reached i.held b)
      ]) in
      (
        omega (
          arith,
          i.fewer,
          left_over-bounds x.disconnect_chan z,
          left_over-bounds w.disconnect_chan o,
        ),
        y,
        st,
        one,
      )
