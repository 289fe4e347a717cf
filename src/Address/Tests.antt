-- ===== src/Address/Tests.antt =====
-- Runs of the theorems about gudov/address.cpp at concrete inputs.
use gudov.Common.{◌/◌, ◌%◌, bit_or, bit_and, ◌≡◌, refl, arith, ltb, some, replicate, if◌then◌else◌}
use gudov.Common.Text.{Bytes}
use gudov.Address.{made, undefined, count_bytes, broadcast_address6, network_address6}
use gudov.Address.Masks.{ones, count_bytes-ones, edited, low_bits, address6-edited}

count_bytes-ones_example : count_bytes 256 240 ≡ some (ones 240 240)
count_bytes-ones_example = count_bytes-ones 256 240 (omega arith)

abbrev ones_address : Bytes
ones_address = replicate 16 170

address6-edited_example :
    (broadcast_address6 44 ones_address ≡ (
      if ltb 44 128
      then made (edited (λ b. bit_or b (low_bits (44 % 8))) 255 (44 / 8) ones_address)
      else undefined))
    × (network_address6 44 ones_address ≡ (
        if ltb 44 128
        then made (edited (λ b. bit_and b (low_bits (44 % 8))) 0 (44 / 8) ones_address)
        else undefined))
address6-edited_example = address6-edited 44 ones_address refl
