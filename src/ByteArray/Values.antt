-- ===== src/ByteArray/Values.antt =====
-- gudov/bytearray.cpp: the typed reads and writes. A value of w bytes is a number below 256 ^ w; a
-- signed one is read from its bit pattern. `host` is GUDOV_BYTE_ORDER (gudov/endian.h).
use gudov.Common.{ℕ, zero, suc, ◌+◌, ◌-◌, ◌*◌, ◌/◌, ◌%◌, ◌^◌, Bool, true, false}
use gudov.Common.{Option, none, some, List, [], ◌∷◌, map, reverse, bit_and, bit_or, bit_xor}
use gudov.Common.{ltb, if◌then◌else◌, length}
use gudov.Common.Int.{ℤ, pos, negsuc}
use gudov.ByteArray.{Cell, Endian, little, big, M, return, raise, then_with, ◌>>=◌, ◌>>◌}
use gudov.ByteArray.{indeterminate, wide_shift, out_of_bounds, out_of_fuel, signed_overflow}
use gudov.ByteArray.Raw.{write, read}

-- The bytes of a number, lowest first.
unfoldable pub le_bytes : ℕ → ℕ → List ℕ
le_bytes zero v = []
le_bytes (suc w) v = v % 256 ∷ le_bytes w (v / 256)

unfoldable pub of_le_bytes : List ℕ → ℕ
of_le_bytes [] = 0
of_le_bytes (b ∷ bs) = b + 256 * of_le_bytes bs

-- bswap_16, bswap_32 and bswap_64
unfoldable pub byte_swap : ℕ → ℕ → ℕ
byte_swap w v = of_le_bytes (reverse (le_bytes w v))

-- The memory of a value on a machine of the given byte order, and the value of such memory.
unfoldable pub image : Endian → ℕ → ℕ → List ℕ
image little w v = le_bytes w v
image big w v = reverse (le_bytes w v)

unfoldable pub of_image : Endian → List ℕ → ℕ
of_image little bs = of_le_bytes bs
of_image big bs = of_le_bytes (reverse bs)

abbrev pub same_endian : Endian → Endian → Bool
same_endian little little = true
same_endian little big = false
same_endian big little = false
same_endian big big = true

-- The swap that each typed access makes where the object's order is not the machine's.
unfoldable pub ordered : Endian → Endian → ℕ → ℕ → ℕ
ordered endian host w v = if same_endian endian host then v else byte_swap w v

-- Using a byte that was never written is undefined.
unfoldable pub known : List Cell → M (List ℕ)
known [] = return []
known (none ∷ cs) = raise indeterminate
known (some x ∷ cs) = do bs ← known cs; return (x ∷ bs)

-- WriteFint8 and WriteFuint8, and their reads
unfoldable pub write_fuint8 : ℕ → M (Unit {0})
write_fuint8 v = write (some v ∷ [])

unfoldable pub read_fuint8 : M ℕ
read_fuint8 = do cs ← read 1; bs ← known cs; return (of_le_bytes bs)

-- WriteFuint16, WriteFuint32 and WriteFuint64 at w = 2, 4, 8, and on bit patterns the signed ones
unfoldable pub write_fuint : Endian → ℕ → ℕ → M (Unit {0})
write_fuint host w v b = write (map some (image host w (ordered b.endian host w v))) b

unfoldable pub read_fuint : Endian → ℕ → M ℕ
read_fuint host w b = then_with (read w b) λ cs b'.
    then_with (known cs b') λ bs b''. return (ordered b.endian host w (of_image host bs)) b''

-- The loop of WriteUint32 and WriteUint64 over `tmp`, which has `room` entries left.
unfoldable pub varint_bytes : ℕ → ℕ → Option (List ℕ)
varint_bytes zero v = none
varint_bytes (suc room) v = elim (ltb v 0x80) [
  | true ↦ some (v % 256 ∷ [])
  | false ↦ elim (varint_bytes room (v / 2 ^ 7)) [
    | none ↦ none
    | some bs ↦ some (bit_or (bit_and v 0x7f) 0x80 ∷ bs)
  ]
]

unfoldable pub write_tmp : Option (List ℕ) → M (Unit {0})
write_tmp none = raise out_of_bounds
write_tmp (some bs) = write (map some bs)

unfoldable pub write_uint32 : ℕ → M (Unit {0})
write_uint32 v = write_tmp (varint_bytes 5 v)

unfoldable pub write_uint64 : ℕ → M (Unit {0})
write_uint64 v = write_tmp (varint_bytes 10 v)

-- `((uint32_t)x) << i`, undefined from i = 32 on
unfoldable pub shl32 : ℕ → ℕ → M ℕ
shl32 x i = if ltb i 32 then return (x * 2 ^ i % 2 ^ 32) else raise wide_shift

-- The loop of ReadUint32 (bits = 32) and of ReadUint64 (bits = 64): both cast to uint32_t.
unfoldable pub read_varint : ℕ → ℕ → ℕ → ℕ → M ℕ
read_varint zero bits i result = raise out_of_fuel
read_varint (suc fuel) bits i result = elim (ltb i bits) [
  | false ↦ return result
  | true ↦ do
    b ← read_fuint8
    elim (ltb b 0x80) [
      | true ↦ do x ← shl32 b i; return (bit_or result x)
      | false ↦ do x ← shl32 (bit_and b 0x7f) i; read_varint fuel bits (i + 7) (bit_or result x)
    ]
]

-- Five rounds reach 32, and ten reach 64.
unfoldable pub read_uint32 : M ℕ
read_uint32 = read_varint 6 32 0 0

unfoldable pub read_uint64 : M ℕ
read_uint64 = read_varint 11 64 0 0

-- EncodeZigzag32 (w = 32) and EncodeZigzag64 (w = 64). `v * 2` and `-v` are signed: on overflow the
-- result is undefined.
unfoldable pub encode_zigzag : ℕ → ℤ → Option ℕ
encode_zigzag w (pos n) = if ltb (n * 2) (2 ^ (w - 1)) then some (n * 2) else none
encode_zigzag w (negsuc n) = if ltb (n + 1) (2 ^ (w - 1)) then some ((n + 1) * 2 - 1) else none

-- The integer that a word of w bits stands for.
unfoldable pub signed : ℕ → ℕ → ℤ
signed w x = if ltb x (2 ^ (w - 1)) then pos x else negsuc (2 ^ w - 1 - x)

-- DecodeZigzag32 and DecodeZigzag64: `(v >> 1) ^ -(v & 1)`
unfoldable pub decode_zigzag : ℕ → ℕ → ℤ
decode_zigzag w v = signed w (bit_xor (v / 2) ((2 ^ w - bit_and v 1) % 2 ^ w))

unfoldable pub write_zigzag : Option ℕ → (ℕ → M (Unit {0})) → M (Unit {0})
write_zigzag none put = raise signed_overflow
write_zigzag (some v) put = put v

unfoldable pub write_int32 : ℤ → M (Unit {0})
write_int32 z = write_zigzag (encode_zigzag 32 z) write_uint32

unfoldable pub write_int64 : ℤ → M (Unit {0})
write_int64 z = write_zigzag (encode_zigzag 64 z) write_uint64

unfoldable pub read_int32 : M ℤ
read_int32 = do v ← read_uint32; return (decode_zigzag 32 v)

unfoldable pub read_int64 : M ℤ
read_int64 = do v ← read_uint64; return (decode_zigzag 64 v)

-- WriteStringF16, F32 and F64 at w = 2, 4, 8: the length is cut to w bytes.
unfoldable pub write_string_f : Endian → ℕ → List ℕ → M (Unit {0})
write_string_f host w value = do write_fuint host w (length value % 256 ^ w); write (map some value)

unfoldable pub write_string_vint : List ℕ → M (Unit {0})
write_string_vint value = do write_uint64 (length value); write (map some value)

unfoldable pub write_string_without_length : List ℕ → M (Unit {0})
write_string_without_length value = write (map some value)

unfoldable pub read_string_f : Endian → ℕ → M (List Cell)
read_string_f host w = do len ← read_fuint host w; read len

unfoldable pub read_string_vint : M (List Cell)
read_string_vint = do len ← read_uint64; read len
