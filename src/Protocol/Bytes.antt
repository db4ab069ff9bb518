-- ===== src/Protocol/Bytes.antt =====
-- Byte strings as lists of numbers: `struct.pack`/`unpack` of little-endian unsigned integers, slices
-- of `bytes`, and writes into a `bytearray`.
use native.Mathlib.Nat.{pow-suc}
use mathlib.Core.Path.{subst}
use cerradura_magnetica.Prelude.{
  ℕ, zero, suc, ◌+◌, ◌-◌, ◌*◌, ◌/◌, ◌%◌, ◌^◌, ◌≤◌, ◌<◌, ◌≡◌, refl, ap, List, [], ◌∷◌, ◌++◌, All,
  arith, length, replicate, take, drop, take-append_self, drop-append_self, take-add, drop-drop,
  length-take, length-drop, ◌∙◌,
}

-- `struct.pack("<I", v)` at k = 4, `struct.pack("<Q", v)` at k = 8.
abbrev pub pack_le : ℕ → ℕ → List ℕ
pack_le zero v = []
pack_le (suc k) v = (v % 256) ∷ pack_le k (v / 256)

-- `struct.unpack_from`, on the bytes that it reads.
abbrev pub unpack_le : List ℕ → ℕ
unpack_le [] = 0
unpack_le (b ∷ bs) = b + 256 * unpack_le bs

-- `raw[i : i + n]`
abbrev pub slice : List ℕ → ℕ → ℕ → List ℕ
slice raw i n = take n (drop i raw)

-- `buf[i : i + len(ys)] = ys` inside the buffer.
abbrev pub overlay : List ℕ → List ℕ → List ℕ
overlay xs [] = xs
overlay [] (y ∷ ys) = []
overlay (x ∷ xs) (y ∷ ys) = y ∷ overlay xs ys

abbrev pub write : List ℕ → ℕ → List ℕ → List ℕ
write xs zero ys = overlay xs ys
write [] (suc i) ys = []
write (x ∷ xs) (suc i) ys = x ∷ write xs i ys

abbrev pub AreBytes : List ℕ → Type 0
AreBytes = All (λ b. b < 256)

pub length-pack_le : (k v : ℕ) → length (pack_le k v) ≡ k
length-pack_le zero v = refl
length-pack_le (suc k) v = ap suc (length-pack_le k (v / 256))

pub pack_le-AreBytes : (k v : ℕ) → AreBytes (pack_le k v)
pack_le-AreBytes zero v = tt
pack_le-AreBytes (suc k) v = (omega arith, pack_le-AreBytes k (v / 256))

pub unpack_le-pack_le : (k v : ℕ) → v < 256 ^ k → unpack_le (pack_le k v) ≡ v
unpack_le-pack_le zero v h = omega arith
unpack_le-pack_le (suc k) v h =
    omega (arith, unpack_le-pack_le k (v / 256) (omega (arith, pow-suc 256 k)))

pub unpack_le-lt : (bs : List ℕ) → AreBytes bs → unpack_le bs < 256 ^ length bs
unpack_le-lt [] h = omega arith
unpack_le-lt (b ∷ bs) h = omega (arith, unpack_le-lt bs h.1, pow-suc 256 (length bs))

pub pack_le-unpack_le : (bs : List ℕ) → AreBytes bs → pack_le (length bs) (unpack_le bs) ≡ bs
pack_le-unpack_le [] h = refl
pack_le-unpack_le (b ∷ bs) h =
    let low : (b + 256 * unpack_le bs) % 256 ≡ b = omega arith in
    let high : (b + 256 * unpack_le bs) / 256 ≡ unpack_le bs = omega arith in
    rw (low, high) (ap (λ t. b ∷ t) (pack_le-unpack_le bs h.1))

-- Data written over zeros leaves zeros behind it.
pub overlay-replicate :
    (n : ℕ) (ys : List ℕ)
    → length ys ≤ n
    → overlay (replicate n 0) ys ≡ ys ++ replicate (n - length ys) 0
overlay-replicate n [] h = let all : n - 0 ≡ n = omega arith in rw all
overlay-replicate zero (y ∷ ys) h = absurd (omega arith)
overlay-replicate (suc n) (y ∷ ys) h =
    let rest : suc n - suc (length ys) ≡ n - length ys = omega arith in
    rw rest (ap (λ t. y ∷ t) (overlay-replicate n ys (omega arith)))

-- Reading back a run of bytes behind a prefix.
pub slice-append :
    (xs ys zs : List ℕ) (i n : ℕ)
    → length xs ≡ i
    → length ys ≡ n
    → slice (xs ++ (ys ++ zs)) i n ≡ ys
slice-append xs ys zs i n at run = rw (← at, ← run) (rw drop-append_self (take-append_self ys zs))

-- A write at the end of a prefix leaves the prefix.
write-append_self : (xs zs ys : List ℕ) → write (xs ++ zs) (length xs) ys ≡ xs ++ overlay zs ys
write-append_self [] zs ys = refl
write-append_self (x ∷ xs) zs ys = ap (λ t. x ∷ t) (write-append_self xs zs ys)

pub write-append :
    (xs zs ys : List ℕ) (i : ℕ) → length xs ≡ i → write (xs ++ zs) i ys ≡ xs ++ overlay zs ys
write-append xs zs ys i at = rw (← at) (write-append_self xs zs ys)

pub slice-add :
    (raw : List ℕ) (i m n : ℕ) → slice raw i (m + n) ≡ slice raw i m ++ slice raw (i + m) n
slice-add raw i m n =
    take-add m n (drop i raw) ∙ ap (λ t. slice raw i m ++ take n t) (drop-drop i m raw)

pub length-slice : (raw : List ℕ) (i n : ℕ) → i + n ≤ length raw → length (slice raw i n) ≡ n
length-slice raw i n h = length-take n (drop i raw) (omega (arith, length-drop i raw))

drop-AreBytes : (n : ℕ) (xs : List ℕ) → AreBytes xs → AreBytes (drop n xs)
drop-AreBytes zero xs h = h
drop-AreBytes (suc n) [] h = tt
drop-AreBytes (suc n) (x ∷ xs) h = drop-AreBytes n xs h.1

take-AreBytes : (n : ℕ) (xs : List ℕ) → AreBytes xs → AreBytes (take n xs)
take-AreBytes zero xs h = tt
take-AreBytes (suc n) [] h = tt
take-AreBytes (suc n) (x ∷ xs) h = (h.0, take-AreBytes n xs h.1)

pub slice-AreBytes : (raw : List ℕ) (i n : ℕ) → AreBytes raw → AreBytes (slice raw i n)
slice-AreBytes raw i n h = take-AreBytes n (drop i raw) (drop-AreBytes i raw h)

-- Packing the integer that a field holds gives the field's bytes.
pub pack_le-unpack_le-slice :
    (raw : List ℕ) (i n : ℕ)
    → AreBytes raw
    → i + n ≤ length raw
    → pack_le n (unpack_le (slice raw i n)) ≡ slice raw i n
pack_le-unpack_le-slice raw i n bytes fits =
    subst (λ m. pack_le m (unpack_le (slice raw i n)) ≡ slice raw i n) (length-slice raw i n fits)
      (pack_le-unpack_le (slice raw i n) (slice-AreBytes raw i n bytes))
