-- ===== src/Protocol/Codec/Cards.antt =====
-- Card records through the payload, and through a whole packet.
use cerradura_magnetica.Prelude.{
  ℕ, ◌≤◌, ◌≡◌, ◌≢◌, refl, true, Option, none, some, ok, leb, le→leb, arith, List, [], ◌∷◌, ◌++◌,
  length, Bool-cases, inl, inr, select, map,
}
use cerradura_magnetica.Protocol.Bytes.{pack_le, unpack_le-pack_le}
use cerradura_magnetica.Protocol.Frames.{Frame, uint32_max, encode_frame, decode_frame}
use cerradura_magnetica.Protocol.Frames.RoundTrip.{
  IsValid, padded, new_frame_lem, decode_frame-encode_frame,
}
use cerradura_magnetica.Protocol.Codec.{
  Date, CardRecord, encode_date, decode_date, encode_card, decode_card, check_doors, contains,
  door_flag, flagged, board_doors, card_number_max, card_payload_len, build_put_card, func_put_card,
}
use cerradura_magnetica.Protocol.Codec.Dates.{
  IsDate, first_2000, decode_date-encode_date, first_2000-unrestricted,
}

-- A limit that the payload can carry: none, or a date other than 2000-01-01.
abbrev pub IsCarried : Option Date → Type 0
IsCarried none = Unit
IsCarried (some d) = IsDate d × (d ≢ first_2000)

pub record IsCard (c : CardRecord) : Type 0 where
  pub number_fits : c.number ≤ card_number_max
  pub doors_known : check_doors c.doors ≡ ok tt
  pub from_carried : IsCarried c.valid_from
  pub to_carried : IsCarried c.valid_to

-- The doors of a card in the board's order, each once.
pub board_order : List ℕ → List ℕ
board_order doors = select (λ d. contains d doors) board_doors

-- What a board reads of a date field.
record Field (o : Option Date) : Type 0 where
  a : ℕ
  b : ℕ
  c : ℕ
  d : ℕ
  encoded : encode_date o ≡ ok (a ∷ b ∷ c ∷ d ∷ [])
  decoded : decode_date (a ∷ b ∷ c ∷ d ∷ []) ≡ ok o

four_bytes :
    (o : Option Date) (raw : List ℕ)
    → length raw ≡ 4
    → encode_date o ≡ ok raw
    → decode_date raw ≡ ok o
    → Field o
four_bytes o (a ∷ b ∷ c ∷ d ∷ []) n e f = record {
  a = a;
  b = b;
  c = c;
  d = d;
  encoded = e;
  decoded = f;
}
four_bytes o [] n e f = absurd (omega (arith, n))
four_bytes o (a ∷ []) n e f = absurd (omega (arith, n))
four_bytes o (a ∷ b ∷ []) n e f = absurd (omega (arith, n))
four_bytes o (a ∷ b ∷ c ∷ []) n e f = absurd (omega (arith, n))
four_bytes o (a ∷ b ∷ c ∷ d ∷ x ∷ r) n e f = absurd (omega (arith, n))

IsCarried-Field : (o : Option Date) → IsCarried o → Field o
unfolding encode_date
IsCarried-Field none h = record {
  a = 0x20;
  b = 0;
  c = 1;
  d = 1;
  encoded = refl;
  decoded = first_2000-unrestricted.1;
}
IsCarried-Field (some d) (valid, other) =
    let (raw, e, _, n, f) = decode_date-encode_date d valid other in four_bytes (some d) raw n e f

-- Flags are read back as the doors that were flagged.
flagged-door_flag :
    (doors ds rest : List ℕ)
    → flagged ds (map (door_flag doors) ds ++ rest) ≡ select (λ d. contains d doors) ds
unfolding flagged door_flag
flagged-door_flag doors [] rest = refl
flagged-door_flag doors (d ∷ ds) rest = elim (Bool-cases (contains d doors)) [
  | inl carried ↦ rw (carried, flagged-door_flag doors ds rest)
  | inr other ↦ rw (other, flagged-door_flag doors ds rest)
]

flags : List ℕ → List ℕ
flags doors = map (door_flag doors) board_doors

record_bytes : (c : CardRecord) → Field c.valid_from → Field c.valid_to → List ℕ
record_bytes c f t =
    pack_le 8 c.number
    ++ ((f.a ∷ f.b ∷ f.c ∷ f.d ∷ []) ++ ((t.a ∷ t.b ∷ t.c ∷ t.d ∷ []) ++ flags c.doors))

module _ (c : CardRecord) (valid : IsCard c) (f : Field c.valid_from) (t : Field c.valid_to) where
  encode_card-record_bytes : encode_card c ≡ ok (record_bytes c f t)
  unfolding encode_card record_bytes flags
  encode_card-record_bytes =
      let fits = le→leb _ _ valid.number_fits in
      let from = f.encoded in let to = t.encoded in rw (fits, valid.doors_known, from, to)

  decode_card-record_bytes :
      (rest : List ℕ)
      → decode_card (record_bytes c f t ++ rest) ≡ ok (record c { doors = board_order c.doors })
  unfolding decode_card record_bytes flags board_order
  decode_card-record_bytes rest =
      let from = f.decoded in
      let to = t.decoded in
      let number = unpack_le-pack_le 8 c.number (omega (arith, valid.number_fits)) in
      let doors = flagged-door_flag c.doors board_doors [] in
      let long : leb card_payload_len (length (record_bytes c f t ++ rest)) ≡ true =
        le→leb _ _ (omega arith) in
      rw (long, from, to, number, doors)

-- A card that the board can carry is encoded to a payload of 20 bytes that decodes to it, whatever
-- stands behind the payload in the data window; its doors come back in the board's order, each once.
pub decode_card-encode_card :
    (c : CardRecord)
    → IsCard c
    → (raw : List ℕ) × (encode_card c ≡ ok raw)
      × (length raw ≡ 20)
      × ((rest : List ℕ)
          → decode_card (raw ++ rest) ≡ ok (record c { doors = board_order c.doors }))
unfolding record_bytes flags
decode_card-encode_card c valid =
    let f = IsCarried-Field c.valid_from valid.from_carried in
    let t = IsCarried-Field c.valid_to valid.to_carried in
    (
      record_bytes c f t,
      encode_card-record_bytes c valid f t,
      refl,
      decode_card-record_bytes c valid f t,
    )

-- A card goes through the packet that carries it, if the serial and the transaction number fit their
-- fields, the card's number fits 64 bits, its doors are doors of the board, and each of its limits, if it
-- has them, is a valid date other than 2000-01-01, which stands for no limit: the packet is built, it
-- decodes to the same function code, serial and transaction number, and its data window decodes to the card,
-- doors in the board's order.
pub put_card_wire :
    (serial xid : ℕ) (c : CardRecord)
    → serial ≤ uint32_max
    → xid ≤ uint32_max
    → IsCard c
    → (f g : Frame) × (build_put_card serial c xid ≡ ok f)
      × (decode_frame (encode_frame f) ≡ ok g)
      × (g.function ≡ func_put_card)
      × (g.serial ≡ serial)
      × (g.xid ≡ xid)
      × (decode_card g.payload ≡ ok (record c { doors = board_order c.doors }))
unfolding build_put_card
put_card_wire serial xid c serial_fits xid_fits valid =
    let (raw, encoded, whole, decoded) = decode_card-encode_card c valid in
    let f : Frame = record {
      function = func_put_card;
      serial = serial;
      payload = raw;
      xid = xid;
    } in
    (
      f,
      record f { payload = padded raw },
      rw encoded (new_frame_lem f (v raw whole)),
      decode_frame-encode_frame f (v raw whole),
      refl,
      refl,
      refl,
      decoded _,
    )
  where
    v :
        (raw : List ℕ)
        → length raw ≡ 20
        → IsValid (record { function = func_put_card; serial = serial; payload = raw; xid = xid })
    v raw whole = record {
      function_fits = omega arith;
      serial_fits = serial_fits;
      xid_fits = xid_fits;
      data_fits = omega (arith, whole);
    }
