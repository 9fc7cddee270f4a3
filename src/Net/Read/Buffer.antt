-- ===== src/Net/Read/Buffer.antt =====
-- The buffer operations of handle_read against the bytes that the buffer holds.
use vwnet_lib.Base.{
  ℕ, ◌+◌, ◌-◌, ◌≤◌, ◌<◌, ◌^◌, ◌≡◌, refl, sym, ◌∙◌, List, ◌++◌, none, some, arith, drop, drop_all,
  inl, inr, ◌==◌, ==_iff, Bool-cases, length, length-slice, length-write_at, slice-write_at,
  slice-write_at_front, slice-add,
}
use vwnet_lib.Net.State.{ReadBuf, sub_size}
use vwnet_lib.Net.Read.{contents, size_remain, make_room, store, settle}

-- The picture in the source: processed bytes, data, room; together the block of `buf_size` bytes.
pub record BufInv (buf_size : ℕ) (b : ReadBuf) (remain : ℕ) : Type 0 where
  pub block : length b.r_buf ≡ buf_size
  pub room : b.r_data + b.r_size + remain ≡ buf_size
  pub small : buf_size < 2 ^ 64

module _ {buf_size : ℕ} {b : ReadBuf} {remain : ℕ} (inv : BufInv buf_size b remain) where
  pub length-contents : length (contents b) ≡ b.r_size
  length-contents = length-slice b.r_buf b.r_data b.r_size (omega (arith, inv.block, inv.room))

pub size_remain-BufInv :
    (buf_size : ℕ) (b : ReadBuf)
    → length b.r_buf ≡ buf_size
    → b.r_data + b.r_size ≤ buf_size
    → buf_size < 2 ^ 64
    → BufInv buf_size b (size_remain buf_size b)
unfolding size_remain
size_remain-BufInv buf_size b block fits small = omega arith

-- `make_room` leaves the data alone, and finds room.
pub make_room-some :
    (buf_size : ℕ) (b : ReadBuf) (remain : ℕ) {b' : ReadBuf} {room : ℕ}
    → BufInv buf_size b remain
    → make_room buf_size b remain ≡ some (b', room)
    → BufInv buf_size b' room × (0 < room) × (contents b' ≡ contents b)
unfolding make_room
make_room-some buf_size b remain inv e = ground (
  arith,
  length-contents inv,
  length-write_at b.r_buf 0 (contents b),
  slice-write_at_front b.r_buf (contents b),
)

-- It fails exactly when the whole block is unprocessed data.
pub make_room-none :
    (buf_size : ℕ) (b : ReadBuf) (remain : ℕ)
    → BufInv buf_size b remain
    → make_room buf_size b remain ≡ none
    → length (contents b) ≡ buf_size
unfolding make_room
make_room-none buf_size b remain inv e = ground (arith, length-contents inv)

pub store-BufInv :
    (buf_size : ℕ) (b : ReadBuf) (room : ℕ) (bytes : List ℕ)
    → BufInv buf_size b room
    → length bytes ≤ room
    → BufInv buf_size (store b bytes) (sub_size room (length bytes))
unfolding store
store-BufInv buf_size b room bytes inv fits = record {
  block =
      length-write_at b.r_buf (b.r_data + b.r_size) bytes (omega (arith, inv.block, inv.room))
      ∙ inv.block;
  room = omega arith;
  small = inv.small;
}

pub contents-store :
    (buf_size : ℕ) (b : ReadBuf) (room : ℕ) (bytes : List ℕ)
    → BufInv buf_size b room
    → contents (store b bytes) ≡ contents b ++ bytes
unfolding store
contents-store buf_size b room bytes inv =
    slice-write_at b.r_buf b.r_data b.r_size bytes (omega (arith, inv.block, inv.room))

-- Processed bytes leave at the front.
pub settle-BufInv :
    (buf_size : ℕ) (b : ReadBuf) (remain byte_p : ℕ)
    → BufInv buf_size b remain
    → byte_p ≤ b.r_size
    → let (b', remain') = settle buf_size b remain byte_p in
      BufInv buf_size b' remain' × (contents b' ≡ drop byte_p (contents b))
unfolding settle
settle-BufInv buf_size b remain byte_p inv h = elim (Bool-cases (byte_p == 0)) [
  | inl nothing ↦ let e : byte_p ≡ 0 = ground arith in rw (nothing, e) (inv, refl)
  | inr some_p ↦ elim (Bool-cases (sub_size b.r_size byte_p == 0)) [
    | inl all ↦
        rw (some_p, all)
          (
            record { block = inv.block; room = omega arith; small = inv.small },
            sym (
                drop_all byte_p (contents b)
                  (omega (arith, (==_iff _ 0).0 all, length-contents inv, inv.room, inv.small))),
          )
    | inr rest ↦
        let e : sub_size b.r_size byte_p ≡ b.r_size - byte_p = omega (arith, inv.room, inv.small) in
        rw (some_p, rest, e)
          (
            record { block = inv.block; room = omega (arith, inv.room); small = inv.small },
            slice-add b.r_buf b.r_data b.r_size byte_p,
          )
  ]
]
