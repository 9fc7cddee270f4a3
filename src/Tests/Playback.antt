-- ===== src/Tests/Playback.antt =====
-- The rate control, for a client that is there and one that is not.
use vwnet_lib.Base.{◌≡◌, refl, true, false, [], ◌∷◌, inl, arith, find, pos}
use vwnet_lib.Net.State.{get_context}
use vwnet_lib.Server.Playback.{rate_loop, rate_size}
use vwnet_lib.Server.Playback.Rate.{rate_loop_stuck}
use vwnet_lib.Server.Playback.Complete.{IsConnected, Delivered, rate_loop-Delivered}
use vwnet_lib.Tests.Data.{net, block}

net-IsConnected : IsConnected 5 net
unfolding get_context find
net-IsConnected = (
  record {
    read_buf = record { r_buf = block; r_data = 0; r_size = 0 };
    w_req_q = [];
    rt_saddr = 0;
  },
  refl,
)

rate_loop-Delivered_example :
    ((rate_loop 9 5 2 (1 ∷ 2 ∷ 3 ∷ 4 ∷ 5 ∷ []) 0 net).0 ≡ true)
    × ((rate_loop 9 5 2 (1 ∷ 2 ∷ 3 ∷ 4 ∷ 5 ∷ []) 0 net).1 ≡ 5)
    × Delivered 5 (1 ∷ 2 ∷ 3 ∷ 4 ∷ 5 ∷ []) net (rate_loop 9 5 2 (1 ∷ 2 ∷ 3 ∷ 4 ∷ 5 ∷ []) 0 net).2
rate_loop-Delivered_example =
    rate_loop-Delivered 9 5 2 (1 ∷ 2 ∷ 3 ∷ 4 ∷ 5 ∷ []) 0 net (omega arith) (omega arith)
      (omega arith) (omega arith) (record { defined = refl; blocks = refl }) net-IsConnected

rate_loop_stuck_example : rate_loop 1000 6 2 (1 ∷ 2 ∷ 3 ∷ []) 1 net ≡ (false, 1, net)
unfolding get_context find
rate_loop_stuck_example = rate_loop_stuck 1000 6 2 (1 ∷ 2 ∷ 3 ∷ []) 1 net (inl refl) (omega arith)

-- A JnlRate of 199 bytes a second is no bytes a slice.
low_rate : rate_size (pos 199) ≡ 0
low_rate = refl
