-- ===== src/Protocol/Frames.antt =====
-- backend/app/services/protocol/frames.py: the 64-byte control frame, its validation, and its
-- encoding into a zeroed buffer. Python's integers are natural numbers here: no caller passes a
-- negative one.
pub mod RoundTrip
use cerradura_magnetica.Prelude.{
  ◌>>◌, ℕ, List, [], ◌∷◌, Result, ok, guard, leb, ◌==◌, length, get_or, replicate,
}
use cerradura_magnetica.Protocol.Bytes.{pack_le, unpack_le, slice, write}

-- The errors of frames.py and codec.py, one for each message.
pub data ProtocolError : Type 0 where
  function_range serial_range xid_range data_too_long : ProtocolError
  bad_length bad_marker : ProtocolError
  bcd_range bcd_byte date_length bad_date : ProtocolError
  card_range door_range card_length : ProtocolError

abbrev pub packet_type : ℕ
packet_type = 0x17

abbrev pub packet_size : ℕ
packet_size = 64

abbrev pub function_off : ℕ
function_off = 1

abbrev pub serial_off : ℕ
serial_off = 4

abbrev pub data_off : ℕ
data_off = 8

abbrev pub data_len : ℕ
data_len = 32

abbrev pub xid_off : ℕ
xid_off = 40

abbrev pub uint32_max : ℕ
uint32_max = 0xffffffff

pub record Frame : Type 0 where
  pub function : ℕ
  pub serial : ℕ
  pub payload : List ℕ
  pub xid : ℕ

-- `Frame(...)` with `__post_init__`.
unfoldable pub new_frame : ℕ → ℕ → List ℕ → ℕ → Result ProtocolError Frame
new_frame function serial payload xid = do
  guard (leb function 0xff) function_range
  guard (leb serial uint32_max) serial_range
  guard (leb xid uint32_max) xid_range
  guard (leb (length payload) data_len) data_too_long
  ok (record { function = function; serial = serial; payload = payload; xid = xid })

unfoldable pub encode_frame : Frame → List ℕ
encode_frame frame =
    let buf = replicate packet_size 0 in
    let buf = write buf 0 (packet_type ∷ []) in
    let buf = write buf function_off (frame.function ∷ []) in
    let buf = write buf serial_off (pack_le 4 frame.serial) in
    let buf = write buf data_off frame.payload in write buf xid_off (pack_le 4 frame.xid)

unfoldable pub decode_frame : List ℕ → Result ProtocolError Frame
unfolding new_frame
decode_frame raw = do
  guard (length raw == packet_size) bad_length
  guard (get_or raw 0 0 == packet_type) bad_marker
  new_frame (get_or raw function_off 0) (unpack_le (slice raw serial_off 4))
      (slice raw data_off data_len) (unpack_le (slice raw xid_off 4))
