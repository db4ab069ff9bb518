-- ===== src/Protocol/Frames/RoundTrip.antt =====
-- The layout of an encoded frame, and decoding against encoding.
use mathlib.Core.List.{append_assoc, append-nil}
use mathlib.Core.Path.{ap₂}
use cerradura_magnetica.Prelude.{
  ℕ, ◌+◌, ◌-◌, ◌≤◌, ◌≡◌, refl, sym, ap, ◌∙◌, List, [], ◌∷◌, ◌++◌, ok, arith, length, replicate,
  length-append, length-replicate, replicate-add, guard-eq-ok, ==_iff, ◌==◌, get_or,
}
use cerradura_magnetica.Protocol.Bytes.{
  pack_le, unpack_le, slice, write, overlay, overlay-replicate, write-append, unpack_le-pack_le,
  AreBytes, slice-append, slice-add, length-slice, pack_le-unpack_le-slice,
}
use cerradura_magnetica.Protocol.Frames.{
  Frame, bad_length, bad_marker, data_len, packet_type, packet_size, uint32_max, encode_frame,
  decode_frame, new_frame,
}

-- What `__post_init__` admits.
pub record IsValid (f : Frame) : Type 0 where
  pub function_fits : f.function ≤ 0xff
  pub serial_fits : f.serial ≤ uint32_max
  pub xid_fits : f.xid ≤ uint32_max
  pub data_fits : length f.payload ≤ data_len

pub new_frame_lem : (f : Frame) → IsValid f → new_frame f.function f.serial f.payload f.xid ≡ ok f
unfolding new_frame
new_frame_lem f v = ground arith

-- The payload window: the data, zero-padded to 32 bytes.
abbrev pub padded : List ℕ → List ℕ
padded xs = xs ++ replicate (data_len - length xs) 0

length-padded : (xs : List ℕ) → length xs ≤ data_len → length (padded xs) ≡ data_len
length-padded xs h = omega (
  arith,
  length-append xs (replicate (data_len - length xs) 0),
  length-replicate (data_len - length xs) (let z : ℕ = 0 in z),
)

window :
    (xs : List ℕ) → length xs ≤ data_len → overlay (replicate 56 0) xs ≡ padded xs ++ replicate 24 0
window xs h =
    let split : 56 - length xs ≡ (data_len - length xs) + 24 = omega arith in
    overlay-replicate 56 xs (omega arith)
    ∙ (rw (split, replicate-add {A = ℕ} (data_len - length xs) 24 0) (sym (append_assoc xs _ _)))

-- The documented layout of the packet, written as one list.
abbrev pub layout : Frame → List ℕ
layout f =
    packet_type
    ∷ f.function
    ∷ 0
    ∷ 0
    ∷ (pack_le 4 f.serial ++ (padded f.payload ++ (pack_le 4 f.xid ++ replicate 20 0)))

-- The writes into the zeroed buffer give the documented layout, for data that fits its window.
pub encode_frame-eq-layout : (f : Frame) → length f.payload ≤ data_len → encode_frame f ≡ layout f
unfolding encode_frame
encode_frame-eq-layout f h =
    ap (λ t. packet_type ∷ f.function ∷ 0 ∷ 0 ∷ (pack_le 4 f.serial ++ t))
      (ap (λ t. write t data_len (pack_le 4 f.xid)) (window f.payload h)
        ∙ write-append (padded f.payload) (replicate 24 0) (pack_le 4 f.xid) data_len
            (length-padded f.payload h))

decode_fields :
    (raw : List ℕ) (f : Frame)
    → IsValid f
    → length raw ≡ packet_size
    → get_or raw 0 0 ≡ packet_type
    → get_or raw 1 0 ≡ f.function
    → unpack_le (slice raw 4 4) ≡ f.serial
    → slice raw 8 32 ≡ f.payload
    → unpack_le (slice raw 40 4) ≡ f.xid
    → decode_frame raw ≡ ok f
unfolding decode_frame
decode_fields raw f v whole marker function serial payload xid = ground arith

length-layout : (f : Frame) → length f.payload ≤ data_len → length (layout f) ≡ packet_size
length-layout f h = omega (
  arith,
  length-append (padded f.payload) (pack_le 4 f.xid ++ replicate 20 0),
  length-padded f.payload h,
)

-- Decoding an encoded frame gives the frame back, its data padded with zeros to 32 bytes.
pub decode_frame-encode_frame :
    (f : Frame)
    → IsValid f
    → decode_frame (encode_frame f) ≡ ok (record f { payload = padded f.payload })
decode_frame-encode_frame f v = rw (encode_frame-eq-layout f v.data_fits) (
    decode_fields (layout f) (record f { payload = padded f.payload })
      (record {
        function_fits = v.function_fits;
        serial_fits = v.serial_fits;
        xid_fits = v.xid_fits;
        data_fits = omega (arith, wide);
      })
      (length-layout f v.data_fits) refl refl
      (unpack_le-pack_le 4 f.serial (omega (arith, v.serial_fits)))
      (slice-append [] (padded f.payload) (pack_le 4 f.xid ++ replicate 20 0) 0 32 refl wide)
      (ap unpack_le
          (slice-append (padded f.payload) (pack_le 4 f.xid) (replicate 20 0) 32 4 wide refl)
        ∙ unpack_le-pack_le 4 f.xid (omega (arith, v.xid_fits))))
  where
    wide : length (padded f.payload) ≡ 32
    wide = length-padded f.payload v.data_fits

-- What a successful decoding has tested and read.
record Decoded (raw : List ℕ) (f : Frame) : Type 0 where
  whole : length raw ≡ packet_size
  marker : get_or raw 0 0 ≡ packet_type
  function : f.function ≡ get_or raw 1 0
  serial : f.serial ≡ unpack_le (slice raw 4 4)
  payload : f.payload ≡ slice raw 8 32
  xid : f.xid ≡ unpack_le (slice raw 40 4)
  valid : IsValid f

new_frame-IsValid :
    (function serial : ℕ) (payload : List ℕ) (xid : ℕ) (f : Frame)
    → new_frame function serial payload xid ≡ ok f
    → (f ≡ record { function = function; serial = serial; payload = payload; xid = xid })
      × IsValid f
unfolding new_frame
new_frame-IsValid function serial payload xid f h = (ground arith, ground arith)

decode_frame-Decoded : (raw : List ℕ) (f : Frame) → decode_frame raw ≡ ok f → Decoded raw f
unfolding decode_frame
decode_frame-Decoded raw f h =
    let (whole, rest) = guard-eq-ok (length raw == packet_size) bad_length _ h in
    let (marker, made) = guard-eq-ok (get_or raw 0 0 == packet_type) bad_marker _ rest in
    let (same, valid) = new_frame-IsValid _ _ _ _ f made in
    record {
      whole = (==_iff (length raw) packet_size).0 whole;
      marker = (==_iff (get_or raw 0 0) packet_type).0 marker;
      function = ap (λ (g : Frame). g.function) same;
      serial = ap (λ (g : Frame). g.serial) same;
      payload = ap (λ (g : Frame). g.payload) same;
      xid = ap (λ (g : Frame). g.xid) same;
      valid = valid;
    }

-- A frame that decodes came from 64 bytes under the marker, and is valid with a full data window.
pub decode_frame-IsValid :
    (raw : List ℕ) (f : Frame)
    → decode_frame raw ≡ ok f
    → (length raw ≡ packet_size)
      × (get_or raw 0 0 ≡ packet_type)
      × IsValid f
      × (length f.payload ≡ data_len)
decode_frame-IsValid raw f h =
    let d = decode_frame-Decoded raw f h in
    (
      d.whole,
      d.marker,
      d.valid,
      ap length d.payload ∙ length-slice raw 8 32 (omega (arith, d.whole)),
    )

-- Three fields in a row.
fields : (raw : List ℕ) → slice raw 4 40 ≡ slice raw 4 4 ++ (slice raw 8 32 ++ slice raw 40 4)
fields raw = slice-add raw 4 4 36 ∙ ap (λ t. slice raw 4 4 ++ t) (slice-add raw 8 32 4)

layout_fields :
    (f : Frame)
    → length f.payload ≡ data_len
    → slice (layout f) 4 40 ≡ pack_le 4 f.serial ++ (f.payload ++ pack_le 4 f.xid)
layout_fields f full =
    let none_left : data_len - length f.payload ≡ 0 = omega arith in
    let bare : padded f.payload ≡ f.payload = rw none_left (append-nil f.payload) in
    rw (fields (layout f), bare)
      (ap₂ (λ s t. pack_le 4 f.serial ++ (s ++ t))
        (slice-append [] f.payload (pack_le 4 f.xid ++ replicate 20 0) 0 32 refl full)
        (slice-append f.payload (pack_le 4 f.xid) (replicate 20 0) 32 4 full refl))

first_two : (raw : List ℕ) → 2 ≤ length raw → slice raw 0 2 ≡ get_or raw 0 0 ∷ get_or raw 1 0 ∷ []
first_two [] h = absurd (omega arith)
first_two (a ∷ []) h = absurd (omega arith)
first_two (a ∷ b ∷ raw) h = refl

-- Encoding what was decoded gives back all of the packet's bytes but the reserved ones, which the
-- encoder zeroes: marker and function code at 0-1, and serial, data and xID at 4-43.
pub encode_frame-decode_frame :
    (raw : List ℕ) (f : Frame)
    → AreBytes raw
    → decode_frame raw ≡ ok f
    → (slice (encode_frame f) 0 2 ≡ slice raw 0 2) × (slice (encode_frame f) 4 40 ≡ slice raw 4 40)
encode_frame-decode_frame raw f bytes h =
    let d = decode_frame-Decoded raw f h in
    let full : length f.payload ≡ data_len = (decode_frame-IsValid raw f h).3 in
    let serial_bytes =
      ap (pack_le 4) d.serial ∙ pack_le-unpack_le-slice raw 4 4 bytes (omega (arith, d.whole)) in
    let xid_bytes =
      ap (pack_le 4) d.xid ∙ pack_le-unpack_le-slice raw 40 4 bytes (omega (arith, d.whole)) in
    rw (encode_frame-eq-layout f (omega arith)) (
      ap₂ (λ a b. a ∷ b ∷ []) (sym d.marker) d.function
          ∙ sym (first_two raw (omega (arith, d.whole))),
      layout_fields f full
          ∙ ap₂ ◌++◌ serial_bytes (ap₂ ◌++◌ d.payload xid_bytes)
          ∙ sym (fields raw),
    )
