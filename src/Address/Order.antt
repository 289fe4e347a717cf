-- ===== src/Address/Order.antt =====
-- The order of addresses (gudov/address.cpp).
use gudov.Common.{ℕ, leb}
use gudov.Common.{if◌then◌else◌}

-- The shorter of two lengths
abbrev shorter : ℕ → ℕ → ℕ
shorter a b = if leb a b then a else b
