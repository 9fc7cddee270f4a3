-- ===== src/Venues/Messages.antt =====
-- venues/bse.h: message types, and the packed structs with their images in the memory of a
-- little-endian host. A field holds the bit pattern that stands in memory; `format_data` of
-- venues/common.h (BSE_LITTLE_ENDIAN is not defined by any build file) turns it into its meaning.
pub mod RoundTrip
use vwnet_lib.Base.{ℕ, ◌+◌, List, [], ◌∷◌, ◌++◌, slice, replicate}
use vwnet_lib.Venues.Endian.{reverse_endian16, reverse_endian32, store_le, load_le}

-- enum BSEMsgType
abbrev pub feed_login : ℕ
feed_login = 1801

abbrev pub feed_logoff : ℕ
feed_logoff = 1802

abbrev pub feed_change_pwd : ℕ
feed_change_pwd = 2112

abbrev pub query_reply_ok : ℕ
query_reply_ok = 2110

abbrev pub query_reply_err : ℕ
query_reply_err = 2111

-- The macro FormatData, at the two widths that the messages use.
unfoldable pub format_data16 : ℕ → ℕ
format_data16 word = reverse_endian16 word

unfoldable pub format_data32 : ℕ → ℕ
format_data32 word = reverse_endian32 word

-- sizeof(PHSizeType) and sizeof(PHMsgType), both uint32_t
abbrev pub ph_size_bytes : ℕ
ph_size_bytes = 4

abbrev pub ph_msg_type_bytes : ℕ
ph_msg_type_bytes = 4

pub record PacketHeader : Type 0 where
  pub size : ℕ
  pub type : ℕ

-- LogoffRequest is the same struct.
pub record LoginRequest : Type 0 where
  pub type : ℕ
  pub client_code : ℕ
  pub filler : ℕ
  pub password : List ℕ
  pub timestamp : List ℕ

-- LogoffReply is the same struct.
pub record LoginReply : Type 0 where
  pub header : PacketHeader
  pub client_code : ℕ
  pub success_flag : ℕ

pub record ChangePasswordRequest : Type 0 where
  pub type : ℕ
  pub old_password : List ℕ
  pub new_password : List ℕ

pub record QueryRequest : Type 0 where
  pub type : ℕ
  pub unique_id : ℕ

-- The union QueryResult is one 32-bit word, whichever member it is read by.
pub record QueryReply : Type 0 where
  pub header : PacketHeader
  pub result : ℕ

abbrev pub password_bytes : ℕ
password_bytes = 64

abbrev pub timestamp_bytes : ℕ
timestamp_bytes = 8

abbrev pub sizeof_packet_header : ℕ
sizeof_packet_header = 8

abbrev pub sizeof_login_request : ℕ
sizeof_login_request = 80

abbrev pub sizeof_login_reply : ℕ
sizeof_login_reply = 12

abbrev pub sizeof_query_request : ℕ
sizeof_query_request = 8

abbrev pub sizeof_query_reply : ℕ
sizeof_query_reply = 12

-- The bytes of a struct, in the order of its fields.
unfoldable pub header_image : PacketHeader → List ℕ
header_image h = store_le 4 h.size ++ store_le 4 h.type

unfoldable pub login_request_image : LoginRequest → List ℕ
login_request_image r =
    store_le 4 r.type
    ++ (store_le 2 r.client_code ++ (store_le 2 r.filler ++ (r.password ++ r.timestamp)))

unfoldable pub login_reply_image : LoginReply → List ℕ
unfolding header_image
login_reply_image r =
    header_image r.header ++ (store_le 2 r.client_code ++ store_le 2 r.success_flag)

unfoldable pub change_password_request_image : ChangePasswordRequest → List ℕ
change_password_request_image r = store_le 4 r.type ++ (r.old_password ++ r.new_password)

unfoldable pub query_request_image : QueryRequest → List ℕ
query_request_image r = store_le 4 r.type ++ store_le 4 r.unique_id

unfoldable pub query_reply_image : QueryReply → List ℕ
unfolding header_image
query_reply_image r = header_image r.header ++ store_le 4 r.result

-- `reinterpret_cast` of a block to a struct.
unfoldable pub header_at : List ℕ → PacketHeader
header_at block = record { size = load_le (slice block 0 4); type = load_le (slice block 4 4) }

unfoldable pub login_request_at : List ℕ → LoginRequest
login_request_at block = record {
  type = load_le (slice block 0 4);
  client_code = load_le (slice block 4 2);
  filler = load_le (slice block 6 2);
  password = slice block 8 64;
  timestamp = slice block 72 8;
}

unfoldable pub login_reply_at : List ℕ → LoginReply
unfolding header_at
login_reply_at block = record {
  header = header_at block;
  client_code = load_le (slice block 8 2);
  success_flag = load_le (slice block 10 2);
}

unfoldable pub query_request_at : List ℕ → QueryRequest
query_request_at block = record {
  type = load_le (slice block 0 4);
  unique_id = load_le (slice block 4 4);
}

unfoldable pub query_reply_at : List ℕ → QueryReply
unfolding header_at
query_reply_at block = record { header = header_at block; result = load_le (slice block 8 4) }
