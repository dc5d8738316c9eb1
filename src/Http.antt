-- ===== src/Http.antt =====
-- include/http_request.h: the request that the parser fills in. A `char` array that holds a string
-- is the list of the bytes before its final NUL; `headers` is `headers[0..header_count)`.
pub mod Limits
pub mod Bounds
pub mod Chars
pub mod Methods
pub mod RequestLine
pub mod HeaderLine
pub mod Parse
pub mod Query
pub mod Printed
pub mod Rounds
pub mod Pieces
use epoll_proxy.Base.{ℕ, List, [], Bool, true, false}
use epoll_proxy.Base.Int.{ℤ, negsuc}

pub data Method : Type 0 where
  unknown get post head put delete patch options trace connect : Method

pub data Version : Type 0 where
  unknown http_10 http_11 : Version

abbrev pub max_method_len : ℕ
max_method_len = 16

abbrev pub max_path_len : ℕ
max_path_len = 8192

abbrev pub max_host_len : ℕ
max_host_len = 256

abbrev pub max_headers : ℕ
max_headers = 64

abbrev pub max_header_name_len : ℕ
max_header_name_len = 128

abbrev pub max_header_value_len : ℕ
max_header_value_len = 8192

-- `http_header_t`
pub record Header : Type 0 where
  pub name : List ℕ
  pub value : List ℕ

-- `http_request_t`; `raw_data` stands for `raw_data` and `raw_data_len`.
pub record Request : Type 0 where
  pub method : Method
  pub method_str : List ℕ
  pub path : List ℕ
  pub version : Version
  pub host : List ℕ
  pub headers : List Header
  pub content_length : ℤ
  pub chunked : Bool
  pub keep_alive : Bool
  pub is_complete : Bool
  pub headers_end_offset : ℕ
  pub total_length : ℕ
  pub raw_data : List ℕ

unfoldable pub init : Request
init = record {
  method = Method.unknown;
  method_str = [];
  path = [];
  version = http_11;
  host = [];
  headers = [];
  content_length = negsuc 0;
  chunked = false;
  keep_alive = true;
  is_complete = false;
  headers_end_offset = 0;
  total_length = 0;
  raw_data = [];
}
