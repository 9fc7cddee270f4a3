-- ===== src/Tests/Venues.antt =====
-- Conversions, trimming and messages.
use vwnet_lib.Base.{
  ℕ, ◌≡◌, refl, List, [], ◌∷◌, ◌++◌, true, false, replicate, length, reverse, arith,
}
use vwnet_lib.Venues.Endian.{reverse_endian16, reverse_endian32, reverse_endian64, store_le}
use vwnet_lib.Venues.Endian.Laws.{store_le-reverse_endian}
use vwnet_lib.Venues.Trim.{trim, all_space, starts_space, trim_parts}
use vwnet_lib.Venues.Messages.{
  LoginRequest, LoginReply, QueryReply, login_request_at, login_request_image, login_reply_image,
  query_request_image, query_reply_image, query_reply_at, sizeof_login_request, sizeof_login_reply,
  sizeof_query_request, sizeof_query_reply,
}
use vwnet_lib.Venues.Messages.RoundTrip.{
  LoginRequestFits, login_request_at-image, query_reply_at-image, length-images,
}

abbrev request : LoginRequest
request = record {
  type = 0x09070000;
  client_code = 0x0700;
  filler = 0;
  password = 49 ∷ replicate 63 0;
  timestamp = replicate 8 0;
}

abbrev reply : LoginReply
reply = record {
  header = record { size = 0x08000000; type = 0x09070000 };
  client_code = 0x0700;
  success_flag = 0;
}

abbrev answer : QueryReply
answer = record { header = record { size = 0x08000000; type = 0x3e080000 }; result = 0x0a000000 }

request-LoginRequestFits : LoginRequestFits request
request-LoginRequestFits = record {
  type_fits = omega arith;
  code_fits = omega arith;
  filler_fits = omega arith;
  password_fits = refl;
  timestamp_fits = refl;
}

login_request_at-image_example :
    login_request_at (login_request_image request ++ (1 ∷ 2 ∷ [])) ≡ request
login_request_at-image_example =
    login_request_at-image request (1 ∷ 2 ∷ []) request-LoginRequestFits

query_reply_at-image_example : query_reply_at (query_reply_image answer ++ []) ≡ answer
query_reply_at-image_example =
    query_reply_at-image answer [] (record { size_fits = omega arith; type_fits = omega arith })
      (omega arith)

length-images_example :
    (length (login_request_image request) ≡ sizeof_login_request)
    × (length (login_reply_image reply) ≡ sizeof_login_reply)
    × (length (query_request_image (record { type = 1; unique_id = 2 })) ≡ sizeof_query_request)
    × (length (query_reply_image answer) ≡ sizeof_query_reply)
length-images_example =
    length-images request reply (record { type = 1; unique_id = 2 }) answer request-LoginRequestFits

store_le-reverse_endian_example :
    (store_le 2 (reverse_endian16 0x01020304) ≡ reverse (store_le 2 0x01020304))
    × (store_le 4 (reverse_endian32 0x01020304) ≡ reverse (store_le 4 0x01020304))
    × (store_le 8 (reverse_endian64 0x01020304) ≡ reverse (store_le 8 0x01020304))
store_le-reverse_endian_example = store_le-reverse_endian 0x01020304

trim_parts_example :
    (pre : List ℕ) × (post : List ℕ) × ((32 ∷ 65 ∷ 9 ∷ [])
      ≡ pre ++ (trim (32 ∷ 65 ∷ 9 ∷ []) ++ post))
    × (all_space pre ≡ true)
    × (all_space post ≡ true)
    × (starts_space (trim (32 ∷ 65 ∷ 9 ∷ [])) ≡ false)
    × (starts_space (reverse (trim (32 ∷ 65 ∷ 9 ∷ []))) ≡ false)
trim_parts_example = trim_parts (32 ∷ 65 ∷ 9 ∷ [])
