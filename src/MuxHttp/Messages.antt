-- ===== src/MuxHttp/Messages.antt =====
-- internal/mux_http/muxproto/frame.go: the types of frames, and messages. The text of a message is
-- what `json.Marshal` gives for it, which is not code of the repository: a codec is a parameter.
use accel_proxy.Common.{Bool, List, Option, String, ℕ, ◌*◌}
use accel_proxy.Common.Dict.{Dict}
use accel_proxy.Wire.{Bytes}

abbrev pub data_chunk_size : ℕ
data_chunk_size = 32 * 1024

abbrev pub control_stream_id : ℕ
control_stream_id = 0

abbrev pub type_register : ℕ
type_register = 0x01

abbrev pub type_register_ack : ℕ
type_register_ack = 0x02

abbrev pub type_data : ℕ
type_data = 0x03

abbrev pub type_ack : ℕ
type_ack = 0x04

abbrev pub type_rst : ℕ
type_rst = 0x06

abbrev pub type_ping : ℕ
type_ping = 0x07

abbrev pub type_pong : ℕ
type_pong = 0x08

abbrev pub type_http_request : ℕ
type_http_request = 0x10

abbrev pub type_http_response_head : ℕ
type_http_response_head = 0x11

abbrev pub type_http_response_body : ℕ
type_http_response_body = 0x12

abbrev pub type_http_response_end : ℕ
type_http_response_end = 0x13

abbrev pub type_http_error : ℕ
type_http_error = 0x14

pub record RstMsg : Type 0 where
  pub stream_id : ℕ
  pub reason : String

pub record AckMsg : Type 0 where
  pub stream_id : ℕ
  pub offset : ℕ

-- `json.Marshal` and `json.Unmarshal` for one type of message.
pub record Codec (A : Type 0) : Type 0 where
  pub marshal : A → Bytes
  pub unmarshal : Bytes → Option A

pub record RegisterMsg : Type 0 where
  pub node_id : String
  pub subs : List String
  pub resume : Option (Dict String ℕ)
  pub caps : List String

pub record RegisterAckMsg : Type 0 where
  pub ok : Bool
  pub message : String
  pub stream_ids : Dict String ℕ

pub record HttpRequestMsg : Type 0 where
  pub method : String
  pub url : String
  pub headers : Dict String String
  pub body : Bytes

pub record HttpResponseHeadMsg : Type 0 where
  pub status_code : ℕ
  pub headers : Dict String String

pub record HttpErrorMsg : Type 0 where
  pub code : ℕ
  pub message : String

-- The codecs of all the messages that a session of the server reads or writes.
pub record Codecs : Type 0 where
  pub rst : Codec RstMsg
  pub ack : Codec AckMsg
  pub register : Codec RegisterMsg
  pub register_ack : Codec RegisterAckMsg
  pub http_request : Codec HttpRequestMsg
  pub http_response_head : Codec HttpResponseHeadMsg
  pub http_error : Codec HttpErrorMsg
