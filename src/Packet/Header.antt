-- ===== src/Packet/Header.antt =====
-- packet.go: one call of `Next`, on every header.
use dvactor.Base.{
  ℕ, suc, ◌+◌, ◌^◌, ◌≤◌, ◌<◌, ◌-◌, ◌≢◌, ◌≡◌, ap, ◌∙◌, none, some, ◌∷◌, ◌++◌, length, get_or, take,
  drop, returns, panics, arith, length-append, length-drop, take_append, drop_append,
  take-append_left, drop-append_left, get_or-append_left,
}
use dvactor.Packet.{
  Bytes, Frame, packet_header_size, max_msg_id, u32, put_uint32, uint32, pack_message, next,
}

-- The two directions of the big-endian conversion.
pub uint32-put_uint32 : (v : ℕ) (rest : Bytes) → uint32 (put_uint32 (u32 v) ++ rest) ≡ u32 v
uint32-put_uint32 v rest = omega arith

pub uint32-append : (buf more : Bytes) → 4 ≤ length buf → uint32 (buf ++ more) ≡ uint32 buf
uint32-append buf more h = rw (
  get_or-append_left buf more 0 0 (omega arith),
  get_or-append_left buf more 1 0 (omega arith),
  get_or-append_left buf more 2 0 (omega arith),
  get_or-append_left buf more 3 0 (omega arith),
)

-- A cut frame takes its header's five bytes at least.
pub next_shrinks :
    (buf : Bytes) {f : Frame} {rest : Bytes}
    → next buf ≡ returns (some f, rest)
    → length rest < length buf
unfolding next
next_shrinks buf h = ground (arith, length-drop (u32 (uint32 buf + packet_header_size)) buf)

pub next-none : (buf : Bytes) {rest : Bytes} → next buf ≡ returns (none, rest) → rest ≡ buf
unfolding next
next-none buf h = ground arith

-- More bytes behind a complete frame do not change it.
pub next-append_some :
    (buf more : Bytes) {f : Frame} {rest : Bytes}
    → length (buf ++ more) < 2 ^ 32
    → next buf ≡ returns (some f, rest)
    → next (buf ++ more) ≡ returns (some f, rest ++ more)
unfolding next
next-append_some buf more h e = ground (
  arith,
  length-append buf more,
  uint32-append buf more,
  get_or-append_left buf more 4 0,
  drop-append_left (u32 (uint32 buf + packet_header_size)) buf more,
  drop-append_left 5 buf more,
  length-drop 5 buf,
  take-append_left (u32 (uint32 buf + packet_header_size) - 5) (drop 5 buf) more,
)

pub next-append_panics :
    (buf more : Bytes)
    → length (buf ++ more) < 2 ^ 32
    → next buf ≡ panics
    → next (buf ++ more) ≡ panics
unfolding next
next-append_panics buf more h e = ground (arith, length-append buf more, uint32-append buf more)

-- `Next` panics on exactly the headers whose length field is at least 2^32 - 5.
pub next_panics :
    (buf : Bytes)
    → 5 ≤ length buf
    → length buf < 2 ^ 32
    → 2 ^ 32 - 5 ≤ uint32 buf
    → uint32 buf < 2 ^ 32
    → next buf ≡ panics
unfolding next
next_panics buf h k lo hi = ground arith

pub next_safe : (buf : Bytes) → uint32 buf < 2 ^ 32 - 5 → next buf ≢ panics
unfolding next
next_safe buf hi e = ground arith

abbrev frame_bytes : ℕ → Bytes → Bytes
frame_bytes msg_id bytes = put_uint32 (u32 (length bytes)) ++ (msg_id ∷ bytes)

pack_message-frame :
    (msg_id : ℕ) (bytes pkt : Bytes)
    → pack_message msg_id bytes ≡ some pkt
    → (msg_id ≤ max_msg_id) × (pkt ≡ frame_bytes msg_id bytes)
unfolding pack_message
pack_message-frame msg_id bytes pkt h = (ground arith, ground (arith))

-- A complete frame is cut at its length field.
next_complete :
    (buf : Bytes) (n : ℕ)
    → uint32 buf ≡ n
    → n + 5 < 2 ^ 32
    → n + 5 ≤ length buf
    → length buf < 2 ^ 32
    → next buf
      ≡ returns
          (some (get_or buf 4 0, take n (drop 5 buf)), drop (suc (suc (suc (suc (suc n))))) buf)
unfolding next
next_complete buf n e small has fits = ground (
  arith,
  ap (λ k. take (k - 5) (drop 5 buf)) msg_len,
  ap (λ k. take k (drop 5 buf)) (let q : suc (suc (suc (suc (suc n)))) - 5 ≡ n = omega arith in q),
  ap (λ k. drop k buf) msg_len,
)
  where
    msg_len : u32 (uint32 buf + packet_header_size) ≡ suc (suc (suc (suc (suc n))))
    msg_len = omega arith

next-frame :
    (msg_id : ℕ) (bytes rest : Bytes)
    → length bytes + 5 < 2 ^ 32
    → length (frame_bytes msg_id bytes ++ rest) < 2 ^ 32
    → next (frame_bytes msg_id bytes ++ rest) ≡ returns (some (msg_id, bytes), rest)
next-frame msg_id bytes rest small fits =
    next_complete (frame_bytes msg_id bytes ++ rest) (length bytes) header small
      (omega (arith, length-append bytes rest)) fits
    ∙ rw (take_append bytes rest, drop_append bytes rest)
  where
    header : uint32 (frame_bytes msg_id bytes ++ rest) ≡ length bytes
    header = omega (arith)

-- A packed message at the front of the buffer is cut off whole.
pub next-pack_message :
    (msg_id : ℕ) (bytes rest pkt : Bytes)
    → pack_message msg_id bytes ≡ some pkt
    → length (pkt ++ rest) < 2 ^ 32
    → next (pkt ++ rest) ≡ returns (some (msg_id, bytes), rest)
next-pack_message msg_id bytes rest pkt h k =
    let e = (pack_message-frame msg_id bytes pkt h).1 in
    let fits : length (frame_bytes msg_id bytes ++ rest) < 2 ^ 32 = rw e at k in
    rw e (next-frame msg_id bytes rest (omega (arith, length-append bytes rest)) fits)
