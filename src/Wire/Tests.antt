-- ===== src/Wire/Tests.antt =====
-- The wire at concrete inputs.
use dvactor.Base.{ℕ, ◌≡◌, ◌≢◌, refl, true, none, [], ◌∷◌, returns, arith}
use dvactor.Fixtures.{types, numbers, blank}
use dvactor.Wire.{actor_ref_to_proto}
use dvactor.Wire.Encode.{to_pkg}
use dvactor.Wire.Link.{
  new_cluster_net, Sent, send_envelope, do_send, on_message, routed, on_message-send_envelope,
}
use dvactor.Base.Maps.{lookup, nat_eq}
use dvactor.Wire.Passive.{IsOpposed, new_cluster_net-IsOpposed}
use dvactor.Wire.Samples.{
  blank-IsConsistent, watching, encode, codec, linked, watching_sent, watching-IsFull,
}

watching_goes :
    send_envelope types (λ x. true) numbers codec blank linked 2 watching
    ≡ returns (none, watching_sent ∷ [])
unfolding send_envelope do_send to_pkg actor_ref_to_proto encode
watching_goes = refl

on_message-send_envelope_example :
    (x : Sent) × (watching_sent ∷ [] ≡ x ∷ [])
    × (on_message types numbers codec blank x.msg_id x.body ≡ returns (routed watching))
on_message-send_envelope_example =
    on_message-send_envelope types (λ x. true) numbers codec blank blank blank-IsConsistent linked 2
      watching
      (
        (omega arith, omega arith, omega arith),
        (omega arith, omega arith, omega arith),
        omega arith,
      )
      watching-IsFull watching_goes

one_is_not_two : ◌≢◌ {A = ℕ} 1 2
one_is_not_two = omega arith

new_cluster_net-IsOpposed_example :
    IsOpposed
      (lookup 2 (new_cluster_net 1 (1 ∷ 2 ∷ 3 ∷ [])))
      (lookup 1 (new_cluster_net 2 (1 ∷ 2 ∷ 3 ∷ [])))
new_cluster_net-IsOpposed_example =
    new_cluster_net-IsOpposed 1 2 (1 ∷ 2 ∷ 3 ∷ []) one_is_not_two refl refl refl
