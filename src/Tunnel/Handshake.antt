-- ===== src/Tunnel/Handshake.antt =====
-- internal/tunnel/protocol.go and auth.go: the handshake of a tunnel and its signature, and the
-- decision of `Server.handleWebSocket` (internal/tunnel/server.go) on it. The HMAC in hexadecimal is
-- a parameter, a function of the key and the text; times are in seconds.
pub mod Signing
use accel_proxy.Common.{
  Bool, Option, String, bool_eq, false, if◌then◌else◌, ltb, nat_eq, none, not, pair_eq, some,
  string_eq, suc, text_append, true, ℕ, ◌==◌,
}
use accel_proxy.Common.Int.{int_eq, ltz, negsuc, pos, ℤ, ◌-ℤ◌}
use accel_proxy.Common.Dict.{Dict}
use accel_proxy.Config.{decimal}

abbrev pub version : ℤ
version = pos 1

abbrev pub max_hop_count : ℤ
max_hop_count = pos 16

abbrev pub max_clock_skew : ℕ
max_clock_skew = 60

pub record HandshakeRequest : Type 0 where
  pub version : ℤ
  pub service_id : String
  pub target_idc : String
  pub protocol : String
  pub client_ip : String
  pub hop_count : ℤ
  pub metadata : Dict String String
  pub timestamp : ℤ
  pub signature : String

pub record HandshakeResponse : Type 0 where
  pub status : String
  pub message : String
  pub node_id : String

pub data HandshakeError : Type 0 where
  unsupported_version hop_count_exceeded target_idc_empty : HandshakeError

-- The checks of `ReceiveHandshake` on a request that was read and parsed.
pub check_handshake : HandshakeRequest → Option HandshakeError
check_handshake req =
    if not (req.version == version)
    then some unsupported_version
    else if ltz max_hop_count req.hop_count
    then some hop_count_exceeded
    else if req.target_idc == ""
    then some target_idc_empty
    else none

pub ok_response : String → HandshakeResponse
ok_response node_id = record { status = "ok"; message = ""; node_id = node_id }

pub err_response : String → String → HandshakeResponse
err_response node_id msg = record { status = "error"; message = msg; node_id = node_id }

-- The text that is signed: "%d:%s:%s:%d".
pub signed_text : HandshakeRequest → String
signed_text req = text_append (decimal req.version) (
    text_append ":" (
      text_append req.service_id
        (text_append ":" (text_append req.target_idc (text_append ":" (decimal req.timestamp))))))

pub data AuthError : Type 0 where
  timestamp_drift signature_mismatch : AuthError

-- |a|
unfoldable pub magnitude : ℤ → ℕ
magnitude (pos n) = n
magnitude (negsuc n) = suc n

module _ (hmac : String → String → String) where
  pub compute_hmac : HandshakeRequest → String → String
  compute_hmac req psk = hmac psk (signed_text req)

  pub sign_request : ℤ → HandshakeRequest → String → HandshakeRequest
  sign_request now req psk =
      let stamped : HandshakeRequest = record req { timestamp = now } in
      if psk == "" then req else record stamped { signature = compute_hmac stamped psk }

  -- Where `now - ts` leaves the range of int64 it is far from 0, wrapped around or not.
  pub verify_request : ℤ → HandshakeRequest → String → Option AuthError
  verify_request now req psk =
      if psk == ""
      then none
      else if ltb max_clock_skew (magnitude (now -ℤ req.timestamp))
      then some timestamp_drift
      else if not (req.signature == compute_hmac req psk)
      then some signature_mismatch
      else none

  -- `handleWebSocket` after the read: the response, and whether the tunnel goes to the handler.
  -- `describe` gives the text of an error.
  pub answer_handshake :
      (HandshakeError → String) → String → String → ℤ → HandshakeRequest → HandshakeResponse × Bool
  answer_handshake describe node_id psk now req = elim (check_handshake req) [
    | some e ↦ (err_response node_id (describe e), false)
    | none ↦ elim (verify_request now req psk) [
      | some e ↦ (err_response node_id "authentication failed", false)
      | none ↦ (ok_response node_id, true)
    ]
  ]
