-- ===== src/Tests/Net.antt =====
-- The read loop, the write loop and send_data.
use vwnet_lib.Base.{◌≡◌, ◌≢◌, refl, true, false, List, [], ◌∷◌, arith, find}
use vwnet_lib.Net.State.{get_context, WReq}
use vwnet_lib.Net.Write.{no_fuel, after_write, write_loop, send_data}
use vwnet_lib.Net.Write.Loop.{Kept, write_loop-Kept, write_loop_ends}
use vwnet_lib.Net.Write.Send.{Queued, send_data-Queued, send_data_overread}
use vwnet_lib.Tests.Data.{three_a_write, net, block}

abbrev queue : List WReq
queue =
    record { copied = true; bytes = 1 ∷ 2 ∷ 3 ∷ 4 ∷ [] }
    ∷ (record { copied = false; bytes = 5 ∷ [] } ∷ [])

write_loop-Kept_example :
    Kept three_a_write queue ([], 2) (write_loop three_a_write 9 queue ([], 2))
write_loop-Kept_example =
    write_loop-Kept three_a_write 9 queue ([], 2) (omega arith, (omega arith, tt))

write_loop_ends_example : (write_loop three_a_write 9 queue ([], 7)).0 ≢ no_fuel
write_loop_ends_example =
    write_loop_ends three_a_write 9 queue ([], 7) (omega arith, (omega arith, tt)) (omega arith)

-- Two writes, and then the socket takes no more: the end of the first request, and the second.
written : (write_loop three_a_write 9 queue ([], 2)).2.0 ≡ 1 ∷ 2 ∷ 3 ∷ 4 ∷ []
unfolding write_loop after_write
written = refl

send_data-Queued_example :
    Queued 5
      (1 ∷ 2 ∷ [])
      net
      (send_data 5 (1 ∷ 2 ∷ []) 2 true net).0
      (send_data 5 (1 ∷ 2 ∷ []) 2 true net).1
unfolding send_data find
send_data-Queued_example = send_data-Queued 5 (1 ∷ 2 ∷ []) 2 true net (omega arith) refl

send_data_overread_example :
    (send_data 5 (1 ∷ 2 ∷ []) 2 true (record net { mallocs = false ∷ (true ∷ []) })).1.undefined
    ≡ true
unfolding get_context find
send_data_overread_example =
    send_data_overread 5 (1 ∷ 2 ∷ []) 2 (record net { mallocs = false ∷ (true ∷ []) })
      (record {
        read_buf = record { r_buf = block; r_data = 0; r_size = 0 };
        w_req_q = [];
        rt_saddr = 0;
      })
      [] refl refl (omega arith)
