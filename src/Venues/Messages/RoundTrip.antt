-- ===== src/Venues/Messages/RoundTrip.antt =====
-- The structs of venues/bse.h written to memory and read back.
use vwnet_lib.Base.{
  ℕ, ◌<◌, ◌^◌, ◌≡◌, refl, ap, ◌∙◌, List, ◌++◌, take, drop, length, take-append, drop-append,
  drop_all, take_all, append_assoc, length-append, arith,
}
use vwnet_lib.Venues.Endian.{store_le, load_le}
use vwnet_lib.Venues.Endian.Laws.{load_le-store_le}
use vwnet_lib.Venues.Messages.{
  PacketHeader, LoginRequest, LoginReply, QueryRequest, QueryReply, login_request_image,
  login_reply_image, query_request_image, query_reply_image, login_request_at, login_reply_at,
  query_request_at, query_reply_at, sizeof_login_request, sizeof_login_reply, sizeof_query_request,
  sizeof_query_reply,
}

-- Field values that fit their fields.
pub record HeaderFits (h : PacketHeader) : Type 0 where
  pub size_fits : h.size < 2 ^ 32
  pub type_fits : h.type < 2 ^ 32

pub record LoginRequestFits (r : LoginRequest) : Type 0 where
  pub type_fits : r.type < 2 ^ 32
  pub code_fits : r.client_code < 2 ^ 16
  pub filler_fits : r.filler < 2 ^ 16
  pub password_fits : length r.password ≡ 64
  pub timestamp_fits : length r.timestamp ≡ 8

load32 : (x : ℕ) → x < 2 ^ 32 → load_le (store_le 4 x) ≡ x
load32 x h = load_le-store_le 4 x h

load16 : (x : ℕ) → x < 2 ^ 16 → load_le (store_le 2 x) ≡ x
load16 x h = load_le-store_le 2 x h

take_exact : (n : ℕ) (xs ys : List ℕ) → length xs ≡ n → take n (xs ++ ys) ≡ xs
take_exact n xs ys h = take-append n xs ys (omega arith) ∙ take_all n xs (omega arith)

drop_exact : (n : ℕ) (xs ys : List ℕ) → length xs ≡ n → drop n (xs ++ ys) ≡ ys
drop_exact n xs ys h =
    drop-append n xs ys (omega arith) ∙ ap (λ t. t ++ ys) (drop_all n xs (omega arith))

-- A log-in request whose fields have their widths is read back from the block that begins with
-- its image, whatever follows it.
pub login_request_at-image :
    (r : LoginRequest) (rest : List ℕ)
    → LoginRequestFits r
    → login_request_at (login_request_image r ++ rest) ≡ r
unfolding login_request_at login_request_image
login_request_at-image r rest fits = λ i. record {
  type = load32 r.type fits.type_fits i;
  client_code = load16 r.client_code fits.code_fits i;
  filler = load16 r.filler fits.filler_fits i;
  password = password_back i;
  timestamp = timestamp_back i;
}
  where
    password_back : take 64 ((r.password ++ r.timestamp) ++ rest) ≡ r.password
    password_back =
        rw (append_assoc r.password r.timestamp rest)
          (take_exact 64 r.password (r.timestamp ++ rest) fits.password_fits)

    timestamp_back : take 8 (drop 64 ((r.password ++ r.timestamp) ++ rest)) ≡ r.timestamp
    timestamp_back =
        rw
          (
            append_assoc r.password r.timestamp rest,
            drop_exact 64 r.password (r.timestamp ++ rest) fits.password_fits,
          )
          (take_exact 8 r.timestamp rest fits.timestamp_fits)

-- A log-in reply whose fields have their widths is read back from the block that begins with its
-- image, whatever follows it.
pub login_reply_at-image :
    (r : LoginReply) (rest : List ℕ)
    → HeaderFits r.header
    → r.client_code < 2 ^ 16
    → r.success_flag < 2 ^ 16
    → login_reply_at (login_reply_image r ++ rest) ≡ r
unfolding login_reply_at login_reply_image
login_reply_at-image r rest fits code flag = λ i. record {
  header = record {
    size = load32 r.header.size fits.size_fits i;
    type = load32 r.header.type fits.type_fits i;
  };
  client_code = load16 r.client_code code i;
  success_flag = load16 r.success_flag flag i;
}

pub query_request_at-image :
    (r : QueryRequest) (rest : List ℕ)
    → r.type < 2 ^ 32
    → r.unique_id < 2 ^ 32
    → query_request_at (query_request_image r ++ rest) ≡ r
unfolding query_request_at query_request_image
query_request_at-image r rest type unique =
    λ i. record { type = load32 r.type type i; unique_id = load32 r.unique_id unique i }

pub query_reply_at-image :
    (r : QueryReply) (rest : List ℕ)
    → HeaderFits r.header
    → r.result < 2 ^ 32
    → query_reply_at (query_reply_image r ++ rest) ≡ r
unfolding query_reply_at query_reply_image
query_reply_at-image r rest fits result = λ i. record {
  header = record {
    size = load32 r.header.size fits.size_fits i;
    type = load32 r.header.type fits.type_fits i;
  };
  result = load32 r.result result i;
}

-- The images have the sizes that the protocol counts with.
pub length-images :
    (request : LoginRequest) (reply : LoginReply) (query : QueryRequest) (answer : QueryReply)
    → LoginRequestFits request
    → (length (login_request_image request) ≡ sizeof_login_request)
      × (length (login_reply_image reply) ≡ sizeof_login_reply)
      × (length (query_request_image query) ≡ sizeof_query_request)
      × (length (query_reply_image answer) ≡ sizeof_query_reply)
unfolding login_request_image login_reply_image query_request_image query_reply_image
length-images request reply query answer fits = (
  omega (
    arith,
    length-append request.password request.timestamp,
    fits.password_fits,
    fits.timestamp_fits,
  ),
  refl,
  refl,
  refl,
)
