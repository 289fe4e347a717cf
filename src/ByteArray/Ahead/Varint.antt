-- ===== src/ByteArray/Ahead/Varint.antt =====
-- The variable-length integers of a ByteArray (WriteUint32, WriteUint64, ReadUint32 and ReadUint64 of
-- gudov/bytearray.cpp): seven bits a byte, lowest first.
use gudov.Common.{ℕ, zero, suc, ◌+◌, ◌*◌, ◌/◌, ◌%◌, ◌^◌, ◌≤◌, ◌<◌, ◌≡◌, ap, ◌∙◌, arith}
use gudov.Common.{List, [], ◌∷◌, map, some, bit_and, bit_or, ltb}
use gudov.Common.{if◌then◌else◌}
use gudov.Common.Bits.{bit_and_low7, bit_or_top, bit_or_shifted}
use gudov.ByteArray.{Cell, ByteArray, Outcome, ok, fault, wide_shift}
use gudov.ByteArray.Raw.{write}
use gudov.ByteArray.Values.{known, read_fuint8, of_le_bytes, varint_bytes, write_tmp, write_uint32}
use gudov.ByteArray.Values.{write_uint64, shl32, read_varint}
use gudov.ByteArray.File.{IsValid, File, view}
use native.Mathlib.Nat.{pow-le-pow_right, mul-le-mul_right}
use native.Mathlib.Numerals.{towards_suc}
use gudov.ByteArray.Ahead.{Ahead, Reads, read_ahead}

-- The seven-bit groups of `v`, lowest first, for `v` below 128 ^ (k + 1).
unfoldable pub groups : ℕ → ℕ → List ℕ
groups zero v = v ∷ []
groups (suc k) v =
    let rest = groups k (v / 128) in if ltb v 128 then v ∷ [] else (v % 128 + 128) ∷ rest

-- The loop of WriteUint32 and WriteUint64 writes the groups, and `tmp` is long enough for them.
varint_bytes-groups :
    (k room v : ℕ) → v < 128 ^ suc k → k < room → varint_bytes room v ≡ some (groups k v)
unfolding varint_bytes groups
varint_bytes-groups k zero v h l = absurd (omega arith)
varint_bytes-groups zero (suc room) v h l = ground arith
varint_bytes-groups (suc k) (suc room) v h l = ground (
  arith,
  varint_bytes-groups k room (v / 128) (omega arith),
  bit_and_low7 v,
  bit_or_top (v % 128),
)

pub write_uint32-groups :
    (v : ℕ) (b : ByteArray) → v < 2 ^ 32 → write_uint32 v b ≡ write (map some (groups 4 v)) b
unfolding write_uint32 write_tmp
write_uint32-groups v b h = rw (varint_bytes-groups 4 5 v (omega arith) (omega arith))

pub write_uint64-groups :
    (v : ℕ) (b : ByteArray) → v < 2 ^ 64 → write_uint64 v b ≡ write (map some (groups 9 v)) b
unfolding write_uint64 write_tmp
write_uint64-groups v b h = rw (varint_bytes-groups 9 10 v (omega arith) (omega arith))

pub read_fuint8-Reads :
    (b : ByteArray) (x : ℕ) (rest : List Cell)
    → IsValid b
    → Ahead (view b) (some x ∷ rest)
    → Reads b (read_fuint8 b) x 1 rest
unfolding read_fuint8 known of_le_bytes
read_fuint8-Reads b x rest v a =
    let r = read_ahead b (some x ∷ []) rest v (omega arith) a in
    let plain : x + 256 * 0 ≡ x = omega arith in
    record {
      state = r.state;
      runs = rw r.runs (ap (λ t. ok t r.state) plain);
      valid = r.valid;
      viewed = r.viewed;
      endian = r.endian;
      ahead = r.ahead;
    }

-- Reading a byte, then going on: the parts put together.
pub reads_then {ℓ} :
    {A : Type ℓ} (b : ByteArray) (x n m : ℕ) (mid rest : List Cell) (first : Outcome ℕ)
    (out : Outcome A) (a : A)
    → (r : Reads b first x n mid) → Reads r.state out a m rest
    → Reads b out a (n + m) rest
reads_then b x n m mid rest first out a r s = record {
  state = s.state;
  runs = s.runs;
  valid = s.valid;
  viewed =
      s.viewed
      ∙ ap (λ (f : File). let g : File = record { bytes = f.bytes; position = f.position + m } in g)
          r.viewed
      ∙ ap (λ p. let g : File = record { bytes = (view b).bytes; position = p } in g)
          (assoc (view b).position n m);
  endian = s.endian ∙ r.endian;
  ahead = s.ahead;
}
  where
    assoc : (p n m : ℕ) → p + n + m ≡ p + (n + m)
    assoc p n m = omega arith

-- A round on a last byte.
pub round_last :
    (b : ByteArray) (x bits i acc fuel : ℕ) (rest : List Cell)
    → IsValid b
    → Ahead (view b) (some x ∷ rest)
    → x < 128
    → i < bits
    → i < 32
    → Reads b (read_varint (suc fuel) bits i acc b) (bit_or acc (x * 2 ^ i % 2 ^ 32)) 1 rest
unfolding read_varint shl32
round_last b x bits i acc fuel rest v a small lt_bits lt32 =
    let r = read_fuint8-Reads b x rest v a in
    record {
      state = r.state;
      runs = ground (arith, r.runs);
      valid = r.valid;
      viewed = r.viewed;
      endian = r.endian;
      ahead = r.ahead;
    }

-- A round on a byte with its top bit set.
pub round_more :
    (b : ByteArray) (x bits i acc fuel : ℕ) (rest : List Cell)
    → (v : IsValid b) → (a : Ahead (view b) (some x ∷ rest)) → 128 ≤ x
    → i < bits
    → i < 32
    → read_varint (suc fuel) bits i acc b
      ≡ read_varint fuel bits
          (i + 7)
          (bit_or acc (bit_and x 0x7f * 2 ^ i % 2 ^ 32))
          (read_fuint8-Reads b x rest v a).state
unfolding read_varint shl32
round_more b x bits i acc fuel rest v a big lt_bits lt32 =
    let r = read_fuint8-Reads b x rest v a in ground (arith, r.runs)

-- From i = 32 on the shift is undefined.
pub round_wide :
    (b : ByteArray) (x bits i acc fuel : ℕ) (rest : List Cell)
    → IsValid b
    → Ahead (view b) (some x ∷ rest)
    → i < bits
    → 32 ≤ i
    → read_varint (suc fuel) bits i acc b ≡ fault wide_shift
unfolding read_varint shl32
round_wide b x bits i acc fuel rest v a lt_bits wide =
    let r = read_fuint8-Reads b x rest v a in ground (arith, r.runs)

pub pow_add7 : (i : ℕ) → 2 ^ (i + 7) ≡ 128 * 2 ^ i
pow_add7 i = simp towards_suc (omega arith)

-- A group that fits is added above the bits that are there.
pub add_group :
    (i acc g : ℕ)
    → i ≤ 21
    → acc < 2 ^ i
    → g < 128
    → (bit_or acc (g * 2 ^ i % 2 ^ 32) ≡ acc + g * 2 ^ i) × (acc + g * 2 ^ i < 2 ^ (i + 7))
add_group i acc g low small h =
    let top : 2 ^ i ≤ 2 ^ 21 = pow-le-pow_right (omega arith) low in
    let part : g * 2 ^ i ≤ 127 * 2 ^ i = mul-le-mul_right (2 ^ i) (omega arith) in
    let fits : g * 2 ^ i % 2 ^ 32 ≡ g * 2 ^ i = omega arith in
    (rw fits (bit_or_shifted i acc g small), omega (arith, pow_add7 i))

-- The fifth group loses what does not fit 32 bits.
pub add_top_group :
    (acc g : ℕ) → acc < 2 ^ 28 → bit_or acc (g * 2 ^ 28 % 2 ^ 32) ≡ (acc + g * 2 ^ 28) % 2 ^ 32
add_top_group acc g small =
    let cut : g * 2 ^ 28 % 2 ^ 32 ≡ g % 16 * 2 ^ 28 = omega arith in
    rw cut (bit_or_shifted 28 acc (g % 16) small ∙ omega arith)
