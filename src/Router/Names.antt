-- ===== src/Router/Names.antt =====
-- The name of a proxy and the way back from it to the actor that it stands for.
use native.Mathlib.Nat.{mod-eq_of_lt}
use dvactor.Base.{
  ℕ, zero, suc, ◌+◌, ◌-◌, ◌*◌, ◌/◌, ◌%◌, ◌^◌, ◌<◌, ◌≡◌, ◌≢◌, refl, ap, ◌∙◌, inl, inr, true, some,
  [], ◌∷◌, ◌++◌, All, arith, ltb, Bool-cases,
}
use dvactor.Packet.{Bytes}
use dvactor.Vactor.{Vactor, ActorRef}
use dvactor.Wire.{Fits}
use dvactor.Router.{
  Router, create_actor_ref_ex, decimal, dash, proxy_id, split_dash, parse_digits, parse_uint,
  get_watchee_actor_ref,
}

-- The digits before a rest, read back after nothing: the number, and then the rest.
parse_digits-decimal :
    (fuel n : ℕ) (rest : Bytes)
    → n < fuel
    → n < 2 ^ 32
    → parse_digits 0 (decimal fuel n rest) ≡ parse_digits n rest
unfolding parse_digits decimal
parse_digits-decimal zero n rest h k = absurd (omega arith)
parse_digits-decimal (suc fuel) n rest h k = elim (Bool-cases (ltb n 10)) [
  | inl e ↦ rw (e, decimal) (last e)
  | inr e ↦
      rw (e, decimal)
        (parse_digits-decimal fuel (n / 10) ((b'0' + n % 10) ∷ rest) (ground arith) (omega arith)
          ∙ next)
]
  where
    last : ltb n 10 ≡ true → parse_digits 0 ((b'0' + n) ∷ rest) ≡ parse_digits n rest
    last e = ground (
      arith,
      ap (λ m. parse_digits m rest) (let q : 0 * 10 + (b'0' + n - b'0') ≡ n = omega arith in q),
    )

    next : parse_digits (n / 10) ((b'0' + n % 10) ∷ rest) ≡ parse_digits n rest
    next = ground (
      arith,
      ap (λ m. parse_digits m rest)
          (let q : n / 10 * 10 + (b'0' + n % 10 - b'0') ≡ n = omega arith in q),
    )

decimal-append :
    (fuel n : ℕ) (rest more : Bytes) → decimal fuel n rest ++ more ≡ decimal fuel n (rest ++ more)
unfolding decimal
decimal-append zero n rest more = refl
decimal-append (suc fuel) n rest more = elim (Bool-cases (ltb n 10)) [
  | inl e ↦ rw (e, decimal)
  | inr e ↦ rw (e, decimal) (decimal-append fuel (n / 10) ((b'0' + n % 10) ∷ rest) more)
]

abbrev NoDash : Bytes → Type 0
NoDash = All (λ b. b ≢ dash)

decimal-NoDash : (fuel n : ℕ) (rest : Bytes) → NoDash rest → NoDash (decimal fuel n rest)
unfolding decimal
decimal-NoDash zero n rest h = h
decimal-NoDash (suc fuel) n rest h = elim (Bool-cases (ltb n 10)) [
  | inl e ↦ rw (e, decimal) (omega arith, h)
  | inr e ↦ rw (e, decimal) (decimal-NoDash fuel (n / 10) ((b'0' + n % 10) ∷ rest) (omega arith, h))
]

split_dash-append :
    (front back : Bytes) → NoDash front → split_dash (front ++ (dash ∷ back)) ≡ some (front, back)
unfolding split_dash
split_dash-append [] back h = refl
split_dash-append (b ∷ front) back h = ground (arith, split_dash-append front back h.1)

decimal-cons :
    (fuel n : ℕ) (rest : Bytes) → (b : ℕ) × (bs : Bytes) × (decimal (suc fuel) n rest ≡ b ∷ bs)
unfolding decimal
decimal-cons zero n rest = elim (Bool-cases (ltb n 10)) [
  | inl e ↦ (b'0' + n, rest, rw (e, decimal))
  | inr e ↦ (b'0' + n % 10, rest, rw (e, decimal))
]
decimal-cons (suc fuel) n rest = elim (Bool-cases (ltb n 10)) [
  | inl e ↦ (b'0' + n, rest, rw (e, decimal))
  | inr e ↦
      let (b, bs, q) = decimal-cons fuel (n / 10) ((b'0' + n % 10) ∷ rest) in
      (b, bs, rw (e, decimal) q)
]

parse_uint-decimal : (n : ℕ) → n < 2 ^ 32 → parse_uint (decimal (suc n) n []) ≡ some n
unfolding parse_uint parse_digits
parse_uint-decimal n h =
    let (b, bs, e) = decimal-cons n n [] in
    rw e (rw e at (parse_digits-decimal (suc n) n [] (omega arith) h))

-- A proxy finds its actor again: from the actor id that `GetWatchProxyActorRef` and
-- `GetRequestProxyActorRef` build, `GetWatcheeActorRef` makes the reference to the actor of the same
-- type and the same id, whatever bytes the id holds (dashes too), for a type that fits 32 bits and
-- the width of actor types.
pub get_watchee_actor_ref-proxy_id :
    (v : Vactor) (r : Router) (ref : ActorRef)
    → Fits v.actor_type_bits ref.actor_type
    → get_watchee_actor_ref v r (proxy_id ref)
      ≡ some (create_actor_ref_ex v r 0 ref.actor_type ref.actor_id)
unfolding get_watchee_actor_ref proxy_id
get_watchee_actor_ref-proxy_id v r ref h = rw (
  split_dash-append (decimal (suc ref.actor_type) ref.actor_type []) ref.actor_id
      (decimal-NoDash (suc ref.actor_type) ref.actor_type [] tt),
  parse_uint-decimal ref.actor_type h.1,
  mod-eq_of_lt h.0,
  get_watchee_actor_ref,
)
