-- ===== src/Protocol/Codec/Dates.antt =====
-- Four-byte dates against their decoding, and the one date that the code cannot carry.
use mathlib.Core.Path.{subst}
use cerradura_magnetica.Prelude.{
  ◌>>=◌, ℕ, ◌+◌, ◌*◌, ◌/◌, ◌%◌, ◌≤◌, ◌≡◌, ◌≢◌, refl, ap, true, false, Option, none, some, ok, ◌==◌,
  ==_iff, arith, List, [], ◌∷◌, length, if◌then◌else◌, Bool-cases, inl, inr, >>=-eq-ok, guard-eq-ok,
  sym,
}
use cerradura_magnetica.Protocol.Bytes.{AreBytes}
use cerradura_magnetica.Protocol.Frames.{date_length}
use cerradura_magnetica.Protocol.Codec.{
  Date, new_date, encode_date, decode_date, to_bcd, from_bcd, bytes_eq, unrestricted,
}
use cerradura_magnetica.Protocol.Codec.Bcd.{from_bcd-to_bcd, to_bcd-from_bcd}

-- A date that `datetime.date` can hold.
abbrev pub IsDate : Date → Type 0
IsDate d = new_date d.year d.month d.day ≡ ok d

abbrev pub first_2000 : Date
first_2000 = record { year = 2000; month = 1; day = 1 }

record Bounds (d : Date) : Type 0 where
  year_low : 1 ≤ d.year
  year_high : d.year ≤ 9999
  month_high : d.month ≤ 12
  day_high : d.day ≤ 31

IsDate-Bounds : (d : Date) → IsDate d → Bounds d
unfolding new_date
IsDate-Bounds d h = record {
  year_low = ground arith;
  year_high = ground arith;
  month_high = ground arith;
  day_high = ground arith;
}

from_bcd_20 : from_bcd 0x20 ≡ ok 20
unfolding from_bcd
from_bcd_20 = refl

from_bcd_0 : from_bcd 0x00 ≡ ok 0
unfolding from_bcd
from_bcd_0 = refl

from_bcd_1 : from_bcd 0x01 ≡ ok 1
unfolding from_bcd
from_bcd_1 = refl

module _ (d : Date) (a b c e : ℕ) (da : from_bcd a ≡ ok (d.year / 100))
    (db : from_bcd b ≡ ok (d.year % 100)) (dc : from_bcd c ≡ ok d.month)
    (de : from_bcd e ≡ ok d.day) where
  -- Of the digits, those of 2000-01-01 stand for no other date.
  bytes_distinct : d ≢ first_2000 → bytes_eq (a ∷ b ∷ c ∷ e ∷ []) unrestricted ≡ false
  bytes_distinct other = ground (arith, from_bcd_20, from_bcd_0, from_bcd_1)

  decode_digits : IsDate d → d ≢ first_2000 → decode_date (a ∷ b ∷ c ∷ e ∷ []) ≡ ok (some d)
  unfolding decode_date
  decode_digits valid other =
      let whole : d.year / 100 * 100 + d.year % 100 ≡ d.year = omega arith in
      let distinct = bytes_distinct other in rw (da, db, dc, de) (rw (distinct, whole) (rw valid))

-- Every date but 2000-01-01 is encoded to four bytes that decode to it.
pub decode_date-encode_date :
    (d : Date)
    → IsDate d
    → d ≢ first_2000
    → (raw : List ℕ) × (encode_date (some d) ≡ ok raw)
      × AreBytes raw
      × (length raw ≡ 4)
      × (decode_date raw ≡ ok (some d))
unfolding encode_date
decode_date-encode_date d valid other =
    let k = IsDate-Bounds d valid in
    let (a, ea, sa, da) = from_bcd-to_bcd (d.year / 100) (omega (arith, k.year_high)) in
    let (b, eb, sb, db) = from_bcd-to_bcd (d.year % 100) (omega arith) in
    let (c, ec, sc, dc) = from_bcd-to_bcd d.month (omega (arith, k.month_high)) in
    let (e, ee, se, de) = from_bcd-to_bcd d.day (omega (arith, k.day_high)) in
    (
      a ∷ b ∷ c ∷ e ∷ [],
      rw (ea, eb, ec, ee),
      (sa, (sb, (sc, (se, tt)))),
      refl,
      decode_digits d a b c e da db dc de valid other,
    )

-- No card can be limited to 2000-01-01: its bytes are those of an unrestricted card.
pub first_2000-unrestricted :
    (encode_date (some first_2000) ≡ encode_date none) × (decode_date unrestricted ≡ ok none)
unfolding encode_date decode_date to_bcd from_bcd
first_2000-unrestricted = (refl, refl)

bytes_eq-eq : (xs ys : List ℕ) → bytes_eq xs ys ≡ true → xs ≡ ys
bytes_eq-eq [] [] h = refl
bytes_eq-eq [] (y ∷ ys) h = cc
bytes_eq-eq (x ∷ xs) [] h = cc
bytes_eq-eq (x ∷ xs) (y ∷ ys) h = ground (arith, bytes_eq-eq xs ys)

new_date-eq-ok :
    (year month day : ℕ) (d : Date)
    → new_date year month day ≡ ok d
    → d ≡ record { year = year; month = month; day = day }
unfolding new_date
new_date-eq-ok year month day d h = ground arith

-- What the tail of `decode_date` returns, once the four bytes are unpacked.
encode_digits :
    (a b c e century year month day : ℕ) (r : Option Date)
    → to_bcd century ≡ ok a
    → to_bcd year ≡ ok b
    → to_bcd month ≡ ok c
    → to_bcd day ≡ ok e
    → year ≤ 99
    → (if bytes_eq (a ∷ b ∷ c ∷ e ∷ []) unrestricted
        then ok none
        else do value ← new_date (century * 100 + year) month day; ok (some value))
      ≡ ok r
    → encode_date r ≡ ok (a ∷ b ∷ c ∷ e ∷ [])
unfolding encode_date
encode_digits a b c e century year month day r ea eb ec ee small h =
    elim (Bool-cases (bytes_eq (a ∷ b ∷ c ∷ e ∷ []) unrestricted)) [
      | inl free ↦
          let same : none ≡ r = cc (rw free at h) in
          subst (λ s. encode_date s ≡ ok (a ∷ b ∷ c ∷ e ∷ [])) same
            (ap ok (sym (bytes_eq-eq _ _ free)))
      | inr limited ↦
          let (value, made, same) =
            >>=-eq-ok (new_date (century * 100 + year) month day) _ (rw limited at h) in
          let found : some value ≡ r = cc same in
          let high : (century * 100 + year) / 100 ≡ century = omega arith in
          let low : (century * 100 + year) % 100 ≡ year = omega arith in
          subst (λ s. encode_date s ≡ ok (a ∷ b ∷ c ∷ e ∷ [])) found
            (rw (new_date-eq-ok _ _ _ value made) (rw (high, low, ea, eb, ec, ee)))
    ]

-- Bytes that decode, to a date or to no limit, are the encoding of what they decode to.
pub encode_date-decode_date :
    (raw : List ℕ) (r : Option Date)
    → AreBytes raw
    → decode_date raw ≡ ok r
    → encode_date r ≡ ok raw
unfolding decode_date
encode_date-decode_date [] r h e = cc
encode_date-decode_date (a ∷ []) r h e = cc
encode_date-decode_date (a ∷ b ∷ []) r h e = cc
encode_date-decode_date (a ∷ b ∷ c ∷ []) r h e = cc
encode_date-decode_date (a ∷ b ∷ c ∷ d ∷ x ∷ rest) r h e =
    let (whole, _) = guard-eq-ok (length (a ∷ b ∷ c ∷ d ∷ x ∷ rest) == 4) date_length _ e in
    let five : length (a ∷ b ∷ c ∷ d ∷ x ∷ rest) ≡ 4 = (==_iff _ _).0 whole in
    absurd (omega (arith, five))
encode_date-decode_date (a ∷ b ∷ c ∷ d ∷ []) r (sa, (sb, (sc, (sd, _)))) e =
    let (century, da, ra) = >>=-eq-ok (from_bcd a) _ e in
    let (year, db, rb) = >>=-eq-ok (from_bcd b) _ ra in
    let (month, dc, rc) = >>=-eq-ok (from_bcd c) _ rb in
    let (day, dd, rd) = >>=-eq-ok (from_bcd d) _ rc in
    encode_digits a b c d century year month day r (to_bcd-from_bcd a century sa da).1
      (to_bcd-from_bcd b year sb db).1 (to_bcd-from_bcd c month sc dc).1
      (to_bcd-from_bcd d day sd dd).1 (to_bcd-from_bcd b year sb db).0 rd
