-- ===== src/Router.antt =====
-- router.go: where an actor lives, and which way an envelope goes. Also the names of the proxies of
-- watch_proxy.go and request_proxy.go.
pub mod Place
pub mod Names
pub mod Groups
mod Tests
use Prim.Native.Nat.{bit_xor}
use mathlib.Core.List.{reverse}
use dvactor.Base.{
  ℕ, zero, suc, ◌+◌, ◌-◌, ◌*◌, ◌/◌, ◌%◌, ◌^◌, Bool, true, false, ◌&&◌, Option, none, some, List, [],
  ◌∷◌, ◌++◌, length, get_or, set, ltb, leb, ◌==◌, if◌then◌else◌, Outcome, returns, panics, ◌>>=◌,
}
use dvactor.Base.Maps.{lookup, insert, nat_eq}
use dvactor.Packet.{Bytes}
use dvactor.Vactor.{Vactor, ActorRef, Ref, Value, Envelope, batch_send, watch, notify, Protobuf}
use dvactor.System.{watch_proxy_actor_type, request_proxy_actor_type}

-- A `SystemConfig`, as far as the router reads it.
pub record SystemConfig : Type 0 where
  pub system_id : ℕ
  pub actor_types : List ℕ

abbrev pub TypeTable : Type 0
TypeTable = List (ℕ × List ℕ)

abbrev pub or_empty {ℓ} : {A : Type ℓ} → Option (List A) → List A
or_empty none = []
or_empty (some xs) = xs

-- `m[key] = append(m[key], value)`
abbrev pub append_at {ℓ} : {A : Type ℓ} → ℕ → A → List (ℕ × List A) → List (ℕ × List A)
append_at key a m = insert key (or_empty (lookup key m) ++ (a ∷ [])) m

pub add_types : ℕ → List ℕ → TypeTable → TypeTable
add_types system_id [] m = m
add_types system_id (t ∷ ts) m = add_types system_id ts (append_at t system_id m)

pub add_configs : List SystemConfig → TypeTable → TypeTable
add_configs [] m = m
add_configs (c ∷ cs) m = add_configs cs (add_types c.system_id c.actor_types m)

pub record Router : Type 0 where
  pub system_id : ℕ
  pub actor_type_to_system_ids : TypeTable

pub new_router : ℕ → List SystemConfig → Router
new_router local_system_id configs = record {
  system_id = local_system_id;
  actor_type_to_system_ids = add_configs configs [];
}

-- `hashs[i%4] ^= actorId[endIndex-i]`: the bytes from the last one on.
pub hash_loop : ℕ → Bytes → List ℕ → List ℕ
hash_loop i [] hashs = hashs
hash_loop i (b ∷ bs) hashs =
    hash_loop (i + 1) bs (set hashs (i % 4) (bit_xor (get_or hashs (i % 4) 0) b))

-- The four bytes side by side, `hashs[0]` lowest: `|` of disjoint bits is a sum.
pub hash : Bytes → ℕ
unfolding hash_loop
hash actor_id =
    let hashs = hash_loop 0 (reverse actor_id) (0 ∷ 0 ∷ 0 ∷ 0 ∷ []) in
    get_or hashs 3 0 % 256 * 2 ^ 24
    + get_or hashs 2 0 % 256 * 2 ^ 16
    + get_or hashs 1 0 % 256 * 2 ^ 8
    + get_or hashs 0 0 % 256

-- `GroupSlot(h&0xFFFF + 1)`, and 1 if that conversion gives 0.
pub group_slot : Vactor → ℕ → ℕ
group_slot v h =
    let slot = (h % 2 ^ 16 + 1) % 2 ^ v.group_slot_bits in if slot == 0 then 1 else slot

-- The list is `systemIds`; `system_id` 0 asks for a choice.
pub choose_system : ℕ → List ℕ → ℕ → ℕ → ℕ
choose_system local_id system_ids h system_id =
    let count = length system_ids in
    if system_id == 0
    then (if count == 0 then local_id else get_or system_ids (h % count) 0)
    else system_id

pub create_actor_ref_ex : Vactor → Router → ℕ → ℕ → Bytes → ActorRef
unfolding choose_system group_slot
create_actor_ref_ex v r system_id actor_type actor_id =
    let system_ids = or_empty (lookup actor_type r.actor_type_to_system_ids) in
    let count = length system_ids in
    let h = hash actor_id in
    record {
      system_id = choose_system r.system_id system_ids h system_id;
      group_slot = if ltb 0 count then group_slot v (h / count) else group_slot v h;
      actor_type = actor_type;
      actor_id = actor_id;
    }

-- `%v` of a number: its decimal digits, on fuel.
pub decimal : ℕ → ℕ → Bytes → Bytes
decimal zero n rest = rest
decimal (suc fuel) n rest = elim (ltb n 10) [
  | true ↦ (b'0' + n) ∷ rest
  | false ↦ decimal fuel (n / 10) ((b'0' + n % 10) ∷ rest)
]

abbrev pub dash : ℕ
dash = b'-'

-- `fmt.Sprintf("%v-%v", actorType, actorId)`
pub proxy_id : ActorRef → Bytes
unfolding decimal
proxy_id ref = decimal (suc ref.actor_type) ref.actor_type [] ++ (dash ∷ ref.actor_id)

pub get_watch_proxy_actor_ref : Vactor → Router → ℕ → ActorRef → ActorRef
get_watch_proxy_actor_ref v r system_id watchee =
    create_actor_ref_ex v r system_id (watch_proxy_actor_type v) (proxy_id watchee)

pub get_request_proxy_actor_ref : Vactor → Router → ℕ → ActorRef → ActorRef
get_request_proxy_actor_ref v r system_id to =
    create_actor_ref_ex v r system_id (request_proxy_actor_type v) (proxy_id to)

-- `strings.SplitN(s, "-", 2)` where it has two parts.
pub split_dash : Bytes → Option (Bytes × Bytes)
split_dash [] = none
split_dash (b ∷ bs) =
    let rest = split_dash bs in
    if b == dash
    then some ([], bs)
    else elim rest [ none ↦ none | some (front, back) ↦ some (b ∷ front, back) ]

-- `strconv.ParseUint(s, 10, 32)`: digits only, and a value that fits 32 bits.
pub parse_digits : ℕ → Bytes → Option ℕ
parse_digits n [] = some n
parse_digits n (b ∷ bs) =
    let m = n * 10 + (b - b'0') in
    let rest = parse_digits m bs in
    if leb b'0' b && leb b b'9' then (if ltb m (2 ^ 32) then rest else none) else none

pub parse_uint : Bytes → Option ℕ
unfolding parse_digits
parse_uint [] = none
parse_uint (b ∷ bs) = parse_digits 0 (b ∷ bs)

-- `ctx.CreateActorRef` is the system's, with system id 0. `none` is the nil interface.
pub get_watchee_actor_ref : Vactor → Router → Bytes → Option ActorRef
get_watchee_actor_ref v r actor_id = elim (split_dash actor_id) [
  | none ↦ none
  | some (front, back) ↦ elim (parse_uint front) [
    | none ↦ none
    | some n ↦ some (create_actor_ref_ex v r 0 (n % 2 ^ v.actor_type_bits) back)
  ]
]
