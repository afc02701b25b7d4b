-- ===== src/Packet/Tests.antt =====
-- Runs of packet.go, and the theorems at concrete inputs.
use mathlib.Core.List.{flatten}
use dvactor.Base.{◌≡◌, ◌≢◌, refl, none, some, List, [], ◌∷◌, arith}
use dvactor.Packet.{
  Bytes, Frame, pack_message, waiting, crashed, out_of_fuel, cut, connected, receive,
}
use dvactor.Packet.Cut.{receive-flatten, cut-ne-out_of_fuel}
use dvactor.Packet.Stream.{Packed, nothing, then_pack, receive-Packed, receive_crash}

-- "hi" with id 1, and an empty message with id 11.
abbrev hi_frame : Bytes
hi_frame = 0 ∷ 0 ∷ 0 ∷ 2 ∷ 1 ∷ b'h' ∷ b'i' ∷ []

abbrev empty_frame : Bytes
empty_frame = 0 ∷ 0 ∷ 0 ∷ 0 ∷ 11 ∷ []

abbrev hi_message : Frame
hi_message = (1, b'h' ∷ b'i' ∷ [])

abbrev empty_message : Frame
empty_message = (11, [])

pack_hi : pack_message 1 (b'h' ∷ b'i' ∷ []) ≡ some hi_frame
unfolding pack_message
pack_hi = refl

pack_empty : pack_message 11 [] ≡ some empty_frame
unfolding pack_message
pack_empty = refl

pack_large_id : pack_message 256 [] ≡ none
unfolding pack_message
pack_large_id = refl

both-Packed : Packed (hi_message ∷ empty_message ∷ []) (hi_frame ∷ empty_frame ∷ [])
both-Packed = then_pack pack_hi (then_pack pack_empty nothing)

-- Three bytes of a header first, then all the rest.
abbrev halves : List Bytes
halves = (0 ∷ 0 ∷ 0 ∷ []) ∷ (2 ∷ 1 ∷ b'h' ∷ b'i' ∷ 0 ∷ 0 ∷ 0 ∷ 0 ∷ 11 ∷ []) ∷ []

receive-Packed_example :
    receive connected halves
    ≡ record { frames = hi_message ∷ empty_message ∷ []; stop = waiting [] }
unfolding flatten
receive-Packed_example = receive-Packed halves both-Packed refl (omega arith)

receive-flatten_example : receive connected halves ≡ cut (flatten halves)
unfolding flatten
receive-flatten_example = receive-flatten halves (omega arith)

-- A length field of 2^32 - 1 behind a good frame.
abbrev bad_header : Bytes
bad_header = 255 ∷ 255 ∷ 255 ∷ 255 ∷ 1 ∷ []

abbrev attack : List Bytes
attack = hi_frame ∷ bad_header ∷ []

receive_crash_example :
    receive connected attack ≡ record { frames = hi_message ∷ []; stop = crashed }
unfolding flatten
receive_crash_example =
    receive_crash attack bad_header (then_pack pack_hi nothing) refl (omega arith) (omega arith)
      (omega arith) (omega arith)

cut-ne-out_of_fuel_example : (cut hi_frame).stop ≢ out_of_fuel
cut-ne-out_of_fuel_example = cut-ne-out_of_fuel hi_frame
