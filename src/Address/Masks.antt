-- ===== src/Address/Masks.antt =====
-- CountBytes and the prefixes of IPv6 addresses (gudov/address.cpp).
use gudov.Common.{
  ℕ, zero, suc, ◌+◌, ◌-◌, ◌*◌, ◌/◌, ◌%◌, ◌<◌, ◌≤◌, ◌≡◌, refl, ap, ◌∙◌, inl, inr, arith, ltb, ◌==◌,
  Bool, true, false, Bool-cases,
}
use gudov.Common.{
  ◌^◌, ◌++◌, take, get_elem?, if◌then◌else◌, bit_and, bit_or, Option, none, some, [], ◌∷◌, length,
  replicate,
}
use gudov.Common.Bits.{bit_and_step}
use gudov.Common.Text.{Bytes}
use gudov.Address.{
  count_loop, count_bytes, Made, null, undefined, made, at_byte, create_mask8, broadcast_address6,
  network_address6,
}
use Prim.Native.Nat.{min}

-- The bits of a number that are set, among its lowest `k`
unfoldable pub ones : ℕ → ℕ → ℕ
ones zero v = 0
ones (suc k) v = v % 2 + ones k (v / 2)

bit_and_self : (k x : ℕ) → x ≤ k → bit_and x x ≡ x
bit_and_self zero x h = let e : x ≡ 0 = omega arith in rw e refl
bit_and_self (suc k) zero h = refl
bit_and_self (suc k) (suc x) h =
    let s = bit_and_step (suc x) (suc x) in
    let r = bit_and_self k (suc x / 2) (omega arith) in omega arith

-- `value &= value - 1` clears one bit.
cleared :
    (k v : ℕ)
    → 0 < v
    → v ≤ k
    → (ones k (bit_and v (v - 1)) + 1 ≡ ones k v) × (bit_and v (v - 1) < v)
unfolding ones
cleared zero v h b = absurd (omega arith)
cleared (suc k) v h b = elim (Bool-cases (v % 2 == 0)) [
  | inr odd ↦
      let o : v % 2 ≡ 1 = ground arith in
      let half : (v - 1) / 2 ≡ v / 2 = omega arith in
      let s : bit_and v (v - 1) ≡ min (v % 2) ((v - 1) % 2) + bit_and (v / 2) (v / 2) * 2 =
        bit_and_step v (v - 1) ∙ rw half refl in
      let same = bit_and_self (v / 2) (v / 2) (omega arith) in
      let w : bit_and v (v - 1) ≡ v / 2 * 2 = omega arith in
      let d : v / 2 * 2 / 2 ≡ v / 2 = omega arith in rw (w, d) (omega arith, omega arith)
  | inl even ↦
      let o : v % 2 ≡ 0 = ground arith in
      let half : (v - 1) / 2 ≡ v / 2 - 1 = omega arith in
      let s : bit_and v (v - 1) ≡ min (v % 2) ((v - 1) % 2) + bit_and (v / 2) (v / 2 - 1) * 2 =
        bit_and_step v (v - 1) ∙ rw half refl in
      let r = cleared k (v / 2) (omega arith) (omega arith) in
      let u = bit_and (v / 2) (v / 2 - 1) in
      let w : bit_and v (v - 1) ≡ u * 2 = omega arith in
      let d : u * 2 / 2 ≡ u = omega arith in rw (w, d) (omega arith, omega arith)
]

ones-zero : (k : ℕ) → ones k 0 ≡ 0
unfolding ones
ones-zero zero = refl
ones-zero (suc k) = omega (arith, ones-zero k)

count_loop-ones :
    (k fuel v result : ℕ) → v ≤ k → v < fuel → count_loop fuel v result ≡ some (result + ones k v)
unfolding count_loop
count_loop-ones k zero v result h b = absurd (omega arith)
count_loop-ones k (suc fuel) zero result h b = let n = ones-zero k in ap some (omega arith)
count_loop-ones k (suc fuel) (suc v) result h b =
    let c = cleared k (suc v) (omega arith) h in
    let z : (suc v == 0) ≡ false = ground arith in
    let r =
      count_loop-ones k fuel (bit_and (suc v) (suc v - 1)) (suc result) (omega arith)
        (omega arith) in
    rw (z, r) (ap some (omega arith))

-- CountBytes ends, and counts the bits of its argument that are set: for any number, in as many turns as
-- its value and one, or more.
pub count_bytes-ones :
    (fuel value : ℕ) → value < fuel → count_bytes fuel value ≡ some (ones value value)
unfolding count_bytes
count_bytes-ones fuel value h =
    count_loop-ones value fuel value 0 (omega arith) h ∙ ap some (omega arith)

abbrev pub byte_of : Option ℕ → ℕ
byte_of none = 0
byte_of (some b) = b

-- The bytes with the one at `i` changed by `f` and all behind it set
abbrev pub edited : (ℕ → ℕ) → ℕ → ℕ → Bytes → Bytes
edited f fill i bs = take i bs ++ f (byte_of (get_elem? bs i)) ∷ replicate (length bs - suc i) fill

at_byte-edited :
    (f : ℕ → ℕ) (fill i : ℕ) (bs : Bytes)
    → at_byte f fill i bs ≡ (if ltb i (length bs) then made (edited f fill i bs) else undefined)
unfolding at_byte
at_byte-edited f fill i [] = ground arith
at_byte-edited f fill zero (b ∷ bs) =
    let l : ltb 0 (suc (length bs)) ≡ true = ground arith in
    let n : suc (length bs) - 1 ≡ length bs = omega arith in rw (l, n) refl
at_byte-edited f fill (suc i) (b ∷ bs) =
    let l : ltb (suc i) (suc (length bs)) ≡ ltb i (length bs) = ground arith in
    let n : suc (length bs) - suc (suc i) ≡ length bs - suc i = omega arith in
    rw (l, n, at_byte-edited f fill i bs) (both (ltb i (length bs)) (edited f fill i bs))
  where
    both :
        (c : Bool) (cs : Bytes)
        → elim (if c then made cs else undefined) as (λ _. Made Bytes) [
          | null ↦ null
          | undefined ↦ undefined
          | made ds ↦ made (b ∷ ds)
        ]
          ≡ (if c then made (b ∷ cs) else undefined)
    both true cs = refl
    both false cs = refl

-- The lowest `8 - k` bits of a byte
abbrev pub low_bits : ℕ → ℕ
low_bits k = 2 ^ (8 - k) - 1

-- For a prefix of fewer than 128 bits the broadcast address of an IPv6 address has the same bytes before the
-- one in which the prefix ends, that one with the bits behind the prefix set, and 255 behind it; the network
-- address has the same bytes before it, that one with the bits behind the prefix only, and 0 behind it. From
-- 128 bits on, of which the whole address is the prefix, both are undefined: they write past its end.
pub address6-edited :
    (prefix_len : ℕ) (a : Bytes)
    → length a ≡ 16
    → (broadcast_address6 prefix_len a ≡ (
        if ltb prefix_len 128
        then made (edited (λ b. bit_or b (low_bits (prefix_len % 8))) 255 (prefix_len / 8) a)
        else undefined))
      × (network_address6 prefix_len a ≡ (
          if ltb prefix_len 128
          then made (edited (λ b. bit_and b (low_bits (prefix_len % 8))) 0 (prefix_len / 8) a)
          else undefined))
unfolding broadcast_address6 network_address6 create_mask8
address6-edited prefix_len a h =
    let e : ltb (prefix_len / 8) (length a) ≡ ltb prefix_len 128 = ground arith in
    (
      at_byte-edited (λ b. bit_or b (low_bits (prefix_len % 8))) 255 (prefix_len / 8) a ∙ rw e refl,
      at_byte-edited (λ b. bit_and b (low_bits (prefix_len % 8))) 0 (prefix_len / 8) a ∙ rw e refl,
    )
