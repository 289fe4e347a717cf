-- ===== src/ByteArray/Tests.antt =====
-- The theorems about ByteArray (gudov/bytearray.cpp) at concrete objects.
use gudov.Common.{◌+◌, ◌^◌, ◌≤◌, ◌<◌, ◌≡◌, ◌⊎◌, refl, arith, List, [], ◌∷◌, map, length, some, none}
use gudov.Common.Int.{negsuc}
use gudov.ByteArray.{Cell, ByteArray, little, big, ok, throws, fault, wide_shift}
use gudov.ByteArray.Raw.{blocks_for, write, read, set_position}
use gudov.ByteArray.Values.{
  image, write_fuint, read_fuint, write_uint32, read_uint32, write_uint64, read_uint64,
}
use gudov.ByteArray.Values.{encode_zigzag}
use gudov.ByteArray.File.{IsValid, view, file_write, file_read, Ends}
use gudov.ByteArray.File.Write.{write_refines}
use gudov.ByteArray.File.Read.{read_refines, file_skip}
use gudov.ByteArray.File.Position.{Moved}
use gudov.ByteArray.File.Cases.{set_position_cases}
use gudov.ByteArray.Ahead.{Reads, Rewound}
use gudov.ByteArray.Ahead.Varint.{groups}
use gudov.ByteArray.Ahead.Decode.{read_uint32-write_uint32, read_uint64_undefined}
use gudov.ByteArray.Ahead.Fixed.{read_fuint-write_fuint}

-- Two blocks of four bytes, five of them written, at position 1.
abbrev five : ByteArray
five = record {
  base_size = 4;
  position = 1;
  capacity = 8;
  size = 5;
  endian = big;
  nodes =
      record { ptr = some 1 ∷ some 2 ∷ some 3 ∷ some 4 ∷ []; size = 4 }
      ∷ record { ptr = some 5 ∷ none ∷ none ∷ none ∷ []; size = 4 }
      ∷ [];
  cur = some 0;
}

abbrev word : List Cell
word = some 10 ∷ some 11 ∷ some 12 ∷ some 13 ∷ some 14 ∷ some 15 ∷ some 16 ∷ some 17 ∷ []

five-IsValid : IsValid five
five-IsValid = record {
  base_pos = omega arith;
  blocks = ((refl, refl), ((refl, refl), tt));
  some_block = omega arith;
  capacity_lem = refl;
  fits = omega arith;
  at = (omega arith, omega arith, omega arith);
  position-le-size = omega arith;
  size-le-capacity = omega arith;
}

write_refines_example :
    (b' : ByteArray) × (write word five ≡ ok tt b') × Ends five b' (file_write word (view five))
write_refines_example = write_refines five word five-IsValid (omega arith) (omega arith)

read_refines_example :
    (b' : ByteArray) × (read 4 five ≡ ok (file_read 4 (view five)) b')
    × Ends five b' (file_skip 4 (view five))
read_refines_example = read_refines five 4 five-IsValid (omega arith) (omega arith)

set_position_cases_example :
    ((7 ≤ 8) × (b' : ByteArray) × (set_position 7 five ≡ ok tt b') × Moved five b' 7)
    ⊎ ((8 < 7) × (set_position 7 five ≡ throws five))
set_position_cases_example = set_position_cases five 7 five-IsValid

read_uint32-write_uint32_example :
    (w : Rewound five (write_uint32 300 five) (map some (groups 4 300))) × Reads w.state
      (read_uint32 w.state)
      300
      (length (groups 4 300))
      []
read_uint32-write_uint32_example =
    read_uint32-write_uint32 five 300 five-IsValid (omega arith) (omega arith)

read_uint64_undefined_example :
    (w : Rewound five (write_uint64 (2 ^ 35) five) (map some (groups 9 (2 ^ 35)))) × (read_uint64
        w.state
      ≡ fault wide_shift)
read_uint64_undefined_example =
    read_uint64_undefined five (2 ^ 35) five-IsValid (omega arith) (omega arith) (omega arith)

read_fuint-write_fuint_example :
    (r : Rewound five (write_fuint little 4 70000 five) (map some (image big 4 70000))) × Reads
      r.state
      (read_fuint big 4 r.state)
      70000
      4
      []
read_fuint-write_fuint_example =
    read_fuint-write_fuint five little big 4 70000 five-IsValid (omega arith) (omega arith)
      (omega arith) (omega arith)

minus_three : encode_zigzag 32 (negsuc 2) ≡ some 5
unfolding encode_zigzag
minus_three = refl

-- A buffer of 2 ^ 53 + 1 bytes is one more than the doubles count.
rounded_down : blocks_for (2 ^ 53 + 1) 1 ≡ 2 ^ 53
unfolding blocks_for
rounded_down = refl

rounded_even : blocks_for (2 ^ 53 + 3) 1 ≡ 2 ^ 53 + 4
unfolding blocks_for
rounded_even = refl

of_a_large_base : blocks_for (2 ^ 53) 4096 ≡ 2 ^ 41
unfolding blocks_for
of_a_large_base = refl

of_a_tiny_quotient : blocks_for (2 ^ 52) (2 ^ 60) ≡ 1
unfolding blocks_for
of_a_tiny_quotient = refl
