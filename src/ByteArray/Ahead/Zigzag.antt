-- ===== src/ByteArray/Ahead/Zigzag.antt =====
-- The zigzag code of signed integers (EncodeZigzag32, DecodeZigzag32, their 64-bit forms, WriteInt32 and
-- ReadInt32 of gudov/bytearray.cpp).
use gudov.Common.{ℕ, suc, ◌+◌, ◌-◌, ◌*◌, ◌/◌, ◌%◌, ◌^◌, ◌≤◌, ◌<◌, ◌≡◌, ap, arith}
use gudov.Common.{
  [], map, length, some, none, bit_and, ltb, if◌then◌else◌, Bool-cases, inl, inr, lt→ltb, ltb→lt,
  false,
}
use gudov.Common.Bits.{bit_and_one, bit_xor-zero, bit_xor_ones}
use gudov.Common.Int.{ℤ, pos, negsuc}
use gudov.ByteArray.{ByteArray, ok}
use gudov.ByteArray.Values.{
  encode_zigzag, decode_zigzag, signed, write_int32, read_int32, write_zigzag,
}
use gudov.ByteArray.File.{IsValid}
use gudov.ByteArray.Ahead.{Reads, Rewound}
use gudov.ByteArray.Ahead.Varint.{groups}
use gudov.ByteArray.Ahead.Decode.{read_uint32-write_uint32}
use native.Mathlib.Nat.{pow-suc, one-le-pow, mod_self, mod-eq_of_lt}

-- `signed` of a word in the lower and in the upper half.
signed_low : (k x : ℕ) → x < 2 ^ k → signed (suc k) x ≡ pos x
unfolding signed
signed_low k x h = let width : suc k - 1 ≡ k = omega arith in rw (width, lt→ltb x (2 ^ k) h)

signed_high : (k n : ℕ) → n < 2 ^ k → signed (suc k) (2 ^ suc k - 1 - n) ≡ negsuc n
unfolding signed
signed_high k n h =
    let width : suc k - 1 ≡ k = omega arith in
    let upper : ltb (2 ^ suc k - 1 - n) (2 ^ k) ≡ false = ground (arith, pow-suc 2 k) in
    let back : 2 ^ suc k - 1 - (2 ^ suc k - 1 - n) ≡ n = omega (arith, pow-suc 2 k) in
    rw (width, upper, back)

-- An even code is a number that is not negative, an odd one a negative number.
decode_even : (k n : ℕ) → n < 2 ^ k → decode_zigzag (suc k) (n * 2) ≡ pos n
unfolding decode_zigzag
decode_even k n h =
    let half : n * 2 / 2 ≡ n = omega arith in
    let bit : bit_and (n * 2) 1 ≡ 0 = omega (arith, bit_and_one (n * 2)) in
    let whole : 2 ^ suc k - 0 ≡ 2 ^ suc k = omega arith in
    rw (half, bit, whole, mod_self (2 ^ suc k), bit_xor-zero n) (signed_low k n h)

decode_odd : (k n : ℕ) → n < 2 ^ k → decode_zigzag (suc k) ((n + 1) * 2 - 1) ≡ negsuc n
unfolding decode_zigzag
decode_odd k n h =
    let half : ((n + 1) * 2 - 1) / 2 ≡ n = omega arith in
    let bit : bit_and ((n + 1) * 2 - 1) 1 ≡ 1 = omega (arith, bit_and_one ((n + 1) * 2 - 1)) in
    let some_bits = one-le-pow (suc k) 2 (omega arith) in
    let ones : (2 ^ suc k - 1) % 2 ^ suc k ≡ 2 ^ suc k - 1 = mod-eq_of_lt (omega arith) in
    let below : n < 2 ^ suc k = omega (arith, pow-suc 2 k) in
    rw (half, bit, ones, bit_xor_ones (suc k) n below) (signed_high k n h)

-- Decoding undoes encoding at every width, wherever encoding is defined.
decode_zigzag-encode_zigzag :
    (k : ℕ) (z : ℤ) (e : ℕ) → encode_zigzag (suc k) z ≡ some e → decode_zigzag (suc k) e ≡ z
unfolding encode_zigzag
decode_zigzag-encode_zigzag k (pos n) e h =
    let width : suc k - 1 ≡ k = omega arith in
    let code : e ≡ n * 2 = ground arith in
    let fits : n * 2 < 2 ^ (suc k - 1) = ground arith in
    rw code
      (decode_even k n (let below : n < 2 ^ (suc k - 1) = omega (arith, fits) in rw width at below))
decode_zigzag-encode_zigzag k (negsuc n) e h =
    let width : suc k - 1 ≡ k = omega arith in
    let code : e ≡ (n + 1) * 2 - 1 = ground arith in
    let fits : n + 1 < 2 ^ (suc k - 1) = ground arith in
    rw code
      (decode_odd k n (let below : n < 2 ^ (suc k - 1) = omega (arith, fits) in rw width at below))

-- EncodeZigzag32 and EncodeZigzag64 overflow on the upper half of the positive numbers, where
-- `v * 2` leaves the signed type, and on the smallest number, where `-v` does.
encode_zigzag_defined :
    (k n : ℕ)
    → (n < 2 ^ k → encode_zigzag (suc (suc k)) (pos n) ≡ some (n * 2))
      × (2 ^ k ≤ n → encode_zigzag (suc (suc k)) (pos n) ≡ none)
      × (n + 1 < 2 ^ suc k → encode_zigzag (suc (suc k)) (negsuc n) ≡ some ((n + 1) * 2 - 1))
      × (2 ^ suc k ≤ n + 1 → encode_zigzag (suc (suc k)) (negsuc n) ≡ none)
unfolding encode_zigzag
encode_zigzag_defined k n =
    let width : suc (suc k) - 1 ≡ suc k = omega arith in
    rw width (
      (λ h. rw (lt→ltb (n * 2) (2 ^ suc k) (omega (arith, pow-suc 2 k)))),
      (λ h. let over : ltb (n * 2) (2 ^ suc k) ≡ false = ground (arith, pow-suc 2 k) in rw over),
      (λ h. rw (lt→ltb (n + 1) (2 ^ suc k) h)),
      (λ h. let over : ltb (n + 1) (2 ^ suc k) ≡ false = ground arith in rw over),
    )

encode_zigzag-lt : (z : ℤ) (e : ℕ) → encode_zigzag 32 z ≡ some e → e < 2 ^ 32
unfolding encode_zigzag
encode_zigzag-lt (pos n) e h = ground arith
encode_zigzag-lt (negsuc n) e h = ground arith

-- ReadInt32 reads back every int32_t whose zigzag code is defined, after WriteInt32 to a valid object,
-- with room below 2 ^ 64, and going back to where it began.
read_int32-write_int32 :
    (b : ByteArray) (z : ℤ) (e : ℕ)
    → IsValid b
    → encode_zigzag 32 z ≡ some e
    → b.position + 5 + b.base_size < 2 ^ 64
    → (w : Rewound b (write_int32 z b) (map some (groups 4 e))) × Reads w.state
        (read_int32 w.state)
        z
        (length (groups 4 e))
        []
unfolding write_int32 read_int32 write_zigzag
read_int32-write_int32 b z e h code room =
    let (w, r) = read_uint32-write_uint32 b e h (encode_zigzag-lt z e code) room in
    rw code (
      w,
      record {
        state = r.state;
        runs = rw r.runs (ap (λ t. ok t r.state) (decode_zigzag-encode_zigzag 31 z e code));
        valid = r.valid;
        viewed = r.viewed;
        endian = r.endian;
        ahead = r.ahead;
      },
    )

-- What EncodeZigzag32 (k = 30) and EncodeZigzag64 (k = 62) give for every number: twice a positive
-- number up to 2 ^ k, and twice the absolute value less one for a negative number above -2 ^ (k + 1). On
-- the upper half of the positive numbers `v * 2` overflows, and on the smallest number `-v` does.
encode_zigzag_lem :
    (k n : ℕ)
    → (encode_zigzag (suc (suc k)) (pos n) ≡ (if ltb n (2 ^ k) then some (n * 2) else none))
      × (encode_zigzag (suc (suc k)) (negsuc n)
          ≡ (if ltb (n + 1) (2 ^ suc k) then some ((n + 1) * 2 - 1) else none))
encode_zigzag_lem k n =
    let all = encode_zigzag_defined k n in
    (
      elim (Bool-cases (ltb n (2 ^ k))) [
        | inl t ↦ rw t (all.0 (ltb→lt n (2 ^ k) t))
        | inr t ↦ rw t (all.1 (ltb-ge n (2 ^ k) t))
      ],
      elim (Bool-cases (ltb (n + 1) (2 ^ suc k))) [
        | inl t ↦ rw t (all.2 (ltb→lt (n + 1) (2 ^ suc k) t))
        | inr t ↦ rw t (all.3 (ltb-ge (n + 1) (2 ^ suc k) t))
      ],
    )
  where
    ltb-ge : (x y : ℕ) → ltb x y ≡ false → y ≤ x
    ltb-ge x y h = ground arith
