-- ===== src/Protocol/Codec.antt =====
-- backend/app/services/protocol/codec.py: packed BCD, dates, card records, and the function-level
-- builders and parsers over the frame.
pub mod Bcd
pub mod Dates
pub mod Cards
use Prim.Native.Nat.{bit_or}
use cerradura_magnetica.Prelude.{
  ◌>>=◌, ◌>>◌, ℕ, ◌+◌, ◌*◌, ◌/◌, ◌%◌, ◌^◌, ◌-◌, Bool, true, false, ◌&&◌, ◌||◌, not, Option, none,
  some, List, [], ◌∷◌, ◌++◌, map, Result, ok, err, guard, leb, ltb, ◌==◌, if◌then◌else◌, length,
  get_or,
}
use cerradura_magnetica.Protocol.Bytes.{pack_le, unpack_le, slice}
use cerradura_magnetica.Protocol.Frames.{
  ProtocolError, bcd_range, bcd_byte, date_length, bad_date, card_range, door_range, card_length,
  Frame, new_frame, decode_frame,
}

abbrev pub func_status : ℕ
func_status = 0x20

abbrev pub func_set_time : ℕ
func_set_time = 0x30

abbrev pub func_open_door : ℕ
func_open_door = 0x40

abbrev pub func_put_card : ℕ
func_put_card = 0x50

abbrev pub func_discover : ℕ
func_discover = 0x94

abbrev pub board_doors : List ℕ
board_doors = 1 ∷ 2 ∷ 3 ∷ 4 ∷ []

-- `d in doors`
abbrev pub contains : ℕ → List ℕ → Bool
contains d [] = false
contains d (x ∷ xs) = d == x || contains d xs

-- `x >> 4` is `x / 2 ^ 4`, and `x & 0xF` is `x % 2 ^ 4`.
unfoldable pub to_bcd : ℕ → Result ProtocolError ℕ
to_bcd value = do guard (leb value 99) bcd_range; ok (bit_or (value / 10 * 2 ^ 4) (value % 10))

unfoldable pub from_bcd : ℕ → Result ProtocolError ℕ
from_bcd byte =
    let hi = byte / 2 ^ 4 % 2 ^ 4 in
    let lo = byte % 2 ^ 4 in if ltb 9 hi || ltb 9 lo then err bcd_byte else ok (hi * 10 + lo)

-- `datetime.date`: its fields, and the test of its constructor.
pub record Date : Type 0 where
  pub year : ℕ
  pub month : ℕ
  pub day : ℕ

abbrev pub is_leap : ℕ → Bool
is_leap year = (year % 4 == 0) && (not (year % 100 == 0) || (year % 400 == 0))

abbrev pub days_in_month : ℕ → ℕ → ℕ
days_in_month year month =
    if month == 2
    then (if is_leap year then 29 else 28)
    else if (month == 4 || month == 6) || (month == 9 || month == 11)
    then 30
    else 31

unfoldable pub new_date : ℕ → ℕ → ℕ → Result ProtocolError Date
new_date year month day = do
  guard (leb 1 year && leb year 9999) bad_date
  guard (leb 1 month && leb month 12) bad_date
  guard (leb 1 day && leb day (days_in_month year month)) bad_date
  ok (record { year = year; month = month; day = day })

-- 2000-01-01
abbrev pub unrestricted : List ℕ
unrestricted = 0x20 ∷ 0x00 ∷ 0x01 ∷ 0x01 ∷ []

abbrev pub bytes_eq : List ℕ → List ℕ → Bool
bytes_eq [] [] = true
bytes_eq [] (y ∷ ys) = false
bytes_eq (x ∷ xs) [] = false
bytes_eq (x ∷ xs) (y ∷ ys) = x == y && bytes_eq xs ys

unfoldable pub encode_date : Option Date → Result ProtocolError (List ℕ)
encode_date none = ok unrestricted
encode_date (some value) = do
  century ← to_bcd (value.year / 100)
  year ← to_bcd (value.year % 100)
  month ← to_bcd value.month
  day ← to_bcd value.day
  ok (century ∷ year ∷ month ∷ day ∷ [])

unfoldable pub decode_date : List ℕ → Result ProtocolError (Option Date)
unfolding new_date
decode_date raw = do
  guard (length raw == 4) date_length
  century ← from_bcd (get_or raw 0 0)
  year ← from_bcd (get_or raw 1 0)
  month ← from_bcd (get_or raw 2 0)
  day ← from_bcd (get_or raw 3 0)
  if bytes_eq raw unrestricted
      then ok none
      else do value ← new_date (century * 100 + year) month day; ok (some value)

-- `datetime.datetime`, as far as the protocol uses it.
pub record DateTime : Type 0 where
  pub year : ℕ
  pub month : ℕ
  pub day : ℕ
  pub hour : ℕ
  pub minute : ℕ
  pub second : ℕ

unfoldable pub encode_datetime : DateTime → Result ProtocolError (List ℕ)
encode_datetime now = do
  century ← to_bcd (now.year / 100)
  year ← to_bcd (now.year % 100)
  month ← to_bcd now.month
  day ← to_bcd now.day
  hour ← to_bcd now.hour
  minute ← to_bcd now.minute
  second ← to_bcd now.second
  ok (century ∷ year ∷ month ∷ day ∷ hour ∷ minute ∷ second ∷ [])

pub record CardRecord : Type 0 where
  pub number : ℕ
  pub doors : List ℕ
  pub valid_from : Option Date
  pub valid_to : Option Date

abbrev pub card_number_max : ℕ
card_number_max = 0xffff_ffff_ffff_ffff

abbrev pub card_payload_len : ℕ
card_payload_len = 20

-- `for d in card.doors: if d not in _DOORS: raise`
unfoldable pub check_doors : List ℕ → Result ProtocolError (Unit {0})
check_doors [] = ok tt
check_doors (d ∷ ds) =
    let rest = check_doors ds in if contains d board_doors then rest else err door_range

unfoldable pub door_flag : List ℕ → ℕ → ℕ
door_flag doors d = if contains d doors then 1 else 0

unfoldable pub encode_card : CardRecord → Result ProtocolError (List ℕ)
unfolding check_doors door_flag
encode_card card = do
  guard (leb card.number card_number_max) card_range
  check_doors card.doors
  from ← encode_date card.valid_from
  to ← encode_date card.valid_to
  ok (pack_le 8 card.number ++ (from ++ (to ++ map (door_flag card.doors) board_doors)))

-- `tuple(d for i, d in enumerate(_DOORS) if payload[16 + i] == 1)`
unfoldable pub flagged : List ℕ → List ℕ → List ℕ
flagged [] flags = []
flagged (d ∷ ds) [] = []
flagged (d ∷ ds) (b ∷ bs) = let rest = flagged ds bs in if b == 1 then d ∷ rest else rest

unfoldable pub decode_card : List ℕ → Result ProtocolError CardRecord
decode_card payload = do
  guard (leb card_payload_len (length payload)) card_length
  from ← decode_date (slice payload 8 4)
  to ← decode_date (slice payload 12 4)
  ok (record {
    number = unpack_le (slice payload 0 8);
    doors = flagged board_doors (slice payload 16 4);
    valid_from = from;
    valid_to = to;
  })

unfoldable pub build_discover : ℕ → Result ProtocolError Frame
build_discover xid = new_frame func_discover 0 [] xid

unfoldable pub build_status_request : ℕ → ℕ → Result ProtocolError Frame
build_status_request serial xid = new_frame func_status serial [] xid

unfoldable pub build_open_door : ℕ → ℕ → ℕ → Result ProtocolError Frame
build_open_door serial door xid = do
  guard (contains door board_doors) door_range
  new_frame func_open_door serial (door ∷ []) xid

unfoldable pub build_set_time : ℕ → DateTime → ℕ → Result ProtocolError Frame
build_set_time serial now xid = do
  payload ← encode_datetime now
  new_frame func_set_time serial payload xid

unfoldable pub build_put_card : ℕ → CardRecord → ℕ → Result ProtocolError Frame
build_put_card serial card xid = do
  payload ← encode_card card
  new_frame func_put_card serial payload xid

unfoldable pub parse_ack : List ℕ → Result ProtocolError Bool
parse_ack raw = do
  frame ← decode_frame raw
  ok (leb 1 (length frame.payload) && (get_or frame.payload 0 0 == 1))

-- `bytes.hex`: the character codes of two digits for each byte.
abbrev pub hex_digit : ℕ → ℕ
hex_digit d = if ltb d 10 then b'0' + d else b'a' + (d - 10)

abbrev pub hex : List ℕ → List ℕ
hex [] = []
hex (b ∷ bs) = hex_digit (b / 16) ∷ hex_digit (b % 16) ∷ hex bs

pub record Status : Type 0 where
  pub function : ℕ
  pub serial : ℕ
  pub payload : List ℕ

unfoldable pub parse_status : List ℕ → Result ProtocolError Status
parse_status raw = do
  frame ← decode_frame raw
  ok (record { function = frame.function; serial = frame.serial; payload = hex frame.payload })
