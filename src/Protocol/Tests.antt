-- ===== src/Protocol/Tests.antt =====
-- The protocol's theorems at concrete frames, dates and cards.
use cerradura_magnetica.Prelude.{
  ℕ, ◌≡◌, ◌≢◌, refl, ap, List, [], ◌∷◌, ◌++◌, none, some, ok, arith, replicate,
}
use cerradura_magnetica.Protocol.Bytes.{AreBytes}
use cerradura_magnetica.Protocol.Frames.{Frame, encode_frame, decode_frame}
use cerradura_magnetica.Protocol.Frames.RoundTrip.{IsValid, padded, decode_frame-encode_frame}
use cerradura_magnetica.Protocol.Codec.{
  from_bcd, Date, new_date, decode_date, CardRecord, check_doors, decode_card, build_put_card,
  func_put_card,
}
use cerradura_magnetica.Protocol.Codec.Dates.{IsDate, first_2000}
use cerradura_magnetica.Protocol.Codec.Cards.{IsCard, board_order, put_card_wire}

abbrev frame : Frame
frame = record { function = 0x40; serial = 425_000_001; payload = 3 ∷ []; xid = 258 }

frame-IsValid : IsValid frame
frame-IsValid = record {
  function_fits = omega arith;
  serial_fits = omega arith;
  xid_fits = omega arith;
  data_fits = omega arith;
}

abbrev packet : List ℕ
packet =
    0x17
    ∷ 0x40
    ∷ 9
    ∷ 9
    ∷ (0x41 ∷ 0x02 ∷ 0x55 ∷ 0x19 ∷ (3 ∷ replicate 31 0 ++ (2 ∷ 1 ∷ 0 ∷ 0 ∷ replicate 20 0)))

abbrev packet_frame : Frame
packet_frame = record {
  function = 0x40;
  serial = 425_001_537;
  payload = 3 ∷ replicate 31 0;
  xid = 258;
}

packet_decodes : decode_frame packet ≡ ok packet_frame
unfolding decode_frame
packet_decodes = refl

packet-AreBytes : AreBytes packet
packet-AreBytes = ground arith

frame_example : decode_frame (encode_frame frame) ≡ ok (record frame { payload = padded (3 ∷ []) })
frame_example = decode_frame-encode_frame frame frame-IsValid

abbrev leap_day : Date
leap_day = record { year = 2024; month = 2; day = 29 }

leap_day-IsDate : IsDate leap_day
unfolding new_date
leap_day-IsDate = refl

leap_day_other : leap_day ≢ first_2000
leap_day_other = λ h. omega (arith, ap (λ (d : Date). d.year) h)

leap_day_bytes : decode_date (0x20 ∷ 0x24 ∷ 0x02 ∷ 0x29 ∷ []) ≡ ok (some leap_day)
unfolding decode_date from_bcd new_date
leap_day_bytes = refl

abbrev card : CardRecord
card = record {
  number = 0x1_2345_6789;
  doors = 4 ∷ 1 ∷ 4 ∷ [];
  valid_from = none;
  valid_to = some leap_day;
}

doors_known : check_doors (4 ∷ 1 ∷ 4 ∷ []) ≡ ok tt
unfolding check_doors
doors_known = refl

card-IsCard : IsCard card
card-IsCard = record {
  number_fits = omega arith;
  doors_known = doors_known;
  from_carried = tt;
  to_carried = (leap_day-IsDate, leap_day_other);
}

wire_example :
    (f g : Frame) × (build_put_card 425_000_001 card 7 ≡ ok f)
    × (decode_frame (encode_frame f) ≡ ok g)
    × (g.function ≡ func_put_card)
    × (g.serial ≡ 425_000_001)
    × (g.xid ≡ 7)
    × (decode_card g.payload ≡ ok (record card { doors = board_order (4 ∷ 1 ∷ 4 ∷ []) }))
wire_example = put_card_wire 425_000_001 7 card (omega arith) (omega arith) card-IsCard
