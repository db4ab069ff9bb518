-- ===== src/Protocol/Codec/Bcd.antt =====
-- Packed BCD against its decoding.
use Prim.Native.Nat.{bit_or}
use cerradura_magnetica.Prelude.{
  false, if◌then◌else◌, Bool-cases, inl, inr, ℕ, zero, suc, ◌+◌, ◌*◌, ◌/◌, ◌%◌, ◌^◌, ◌≤◌, ◌<◌, ◌≡◌,
  refl, Bool, true, ok, ◌==◌, ==_iff, arith,
}
use cerradura_magnetica.Protocol.Codec.{to_bcd, from_bcd}

-- A test that every number from `k` on passes, for the next `n` of them.
passes : (ℕ → Bool) → ℕ → ℕ → Bool
passes p k zero = true
passes p k (suc n) = let later = passes p (suc k) n in if p k then later else false

passes_each :
    (p : ℕ → Bool) (k n : ℕ) → passes p k n ≡ true → (v : ℕ) → k ≤ v → v < k + n → p v ≡ true
unfolding passes
passes_each p k zero ran v low high = absurd (omega arith)
passes_each p k (suc n) ran v low high = elim (Bool-cases (p k)) [
  | inr bad ↦ let stopped : false ≡ true = rw bad at ran in cc
  | inl good ↦
      let rest = passes_each p (suc k) n (rw good at ran) v in
      elim (Bool-cases (k == v)) [
        | inl here ↦ rw (← (==_iff k v).0 here) good
        | inr later ↦ rest (ground arith) (omega arith)
      ]
]

packed_table : passes (λ v. bit_or (v / 10 * 2 ^ 4) (v % 10) == v / 10 * 16 + v % 10) 0 100 ≡ true
unfolding passes
packed_table = refl

-- The two digits do not overlap, so the bitwise OR is a sum.
to_bcd_sum : (v : ℕ) → v ≤ 99 → to_bcd v ≡ ok (v / 10 * 16 + v % 10)
unfolding to_bcd
to_bcd_sum v h =
    let packed = (==_iff _ _).0 (passes_each _ 0 100 packed_table v (omega arith) (omega arith)) in
    rw packed (ground arith)

-- A number of two digits is packed into a byte that unpacks to it.
pub from_bcd-to_bcd :
    (v : ℕ) → v ≤ 99 → (b : ℕ) × (to_bcd v ≡ ok b) × (b < 256) × (from_bcd b ≡ ok v)
unfolding from_bcd
from_bcd-to_bcd v h = (v / 10 * 16 + v % 10, to_bcd_sum v h, omega arith, ground arith)

-- A byte that unpacks gives a number of two digits, which is packed into that byte.
pub to_bcd-from_bcd : (b v : ℕ) → b < 256 → from_bcd b ≡ ok v → (v ≤ 99) × (to_bcd v ≡ ok b)
unfolding from_bcd
to_bcd-from_bcd b v small h =
    let fits : v ≤ 99 = ground arith in (fits, rw (to_bcd_sum v fits) (ground arith))
