-- ===== src/ByteArray/File/Cases.antt =====
-- Read and SetPosition of gudov/bytearray.cpp on all their branches.
use gudov.Common.{ℕ, ◌≤◌, ◌<◌, ◌≡◌, ◌⊎◌, inl, inr, arith, [], ltb, if◌then◌else◌, Bool-cases}
use gudov.ByteArray.{ByteArray, ok, throws, fault, null_deref}
use gudov.ByteArray.Raw.{read, set_position}
use gudov.ByteArray.File.{IsValid}
use gudov.ByteArray.File.Read.{read_nothing}
use gudov.ByteArray.File.Position.{set_position_lem, Moved}

-- Read of no bytes, from a valid object: it returns nothing and changes nothing, except at the end of
-- the last block, where `cur_` is nullptr and is dereferenced before the loop is reached.
read_zero :
    (b : ByteArray)
    → IsValid b
    → read 0 b ≡ (if ltb b.position b.capacity then ok [] b else fault null_deref)
read_zero b v =
    let pl : b.position ≤ b.capacity = omega (arith, v.position-le-size, v.size-le-capacity) in
    elim (Bool-cases (ltb b.position b.capacity)) [
      | inl t ↦ rw t ((read_nothing b v).0 (ground arith))
      | inr t ↦ rw t ((read_nothing b v).1 (ground arith))
    ]

-- SetPosition of a valid object accepts every position up to the capacity: its loop finds the block of
-- it, the bytes stay, and a position past the size raises the size. One past the capacity throws, and
-- nothing is changed.
pub set_position_cases :
    (b : ByteArray) (v : ℕ)
    → IsValid b
    → ((v ≤ b.capacity) × (b' : ByteArray) × (set_position v b ≡ ok tt b') × Moved b b' v)
      ⊎ ((b.capacity < v) × (set_position v b ≡ throws b))
set_position_cases b v h = elim (Bool-cases (ltb b.capacity v)) [
  | inl t ↦ let past : b.capacity < v = ground arith in inr (past, (set_position_lem b v h).1 past)
  | inr t ↦
      let within : v ≤ b.capacity = ground arith in
      let (b', runs, moved) = (set_position_lem b v h).0 within in inl (within, b', runs, moved)
]
