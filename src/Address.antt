-- ===== src/Address.antt =====
-- gudov/address.cpp: the order of addresses, masks, and the IPv4, IPv6 and Unix addresses. An address is
-- compared by the bytes of its structure, as memcmp reads them. The stored numbers of an IPv4 address are
-- those of the network's byte order. Looking addresses up is not modelled.
pub mod Order
pub mod Masks
mod Tests
use gudov.Common.{
  ℕ, zero, suc, ◌+◌, ◌-◌, ◌*◌, ◌/◌, ◌%◌, ◌^◌, ◌==◌, ltb, leb, Bool, true, false, not, ◌&&◌, ◌||◌,
  if◌then◌else◌,
}
use gudov.Common.{
  bit_and, bit_or, Option, none, some, List, [], ◌∷◌, ◌++◌, length, take, set, replicate,
}
use gudov.Common.Text.{Bytes, codes, decimal, is_nil}
use gudov.ByteArray.Values.{byte_swap}

-- memcmp of `n` bytes: less, equal or greater
pub data Sign : Type 0 where
  below : Sign
  level : Sign
  above : Sign

unfoldable pub memcmp : ℕ → Bytes → Bytes → Sign
memcmp zero xs ys = level
memcmp (suc n) [] ys = level
memcmp (suc n) (x ∷ xs) [] = level
memcmp (suc n) (x ∷ xs) (y ∷ ys) =
    let rest = memcmp n xs ys in if ltb x y then below else if ltb y x then above else rest

abbrev pub is_below : Sign → Bool → Bool
is_below below shorter = true
is_below above shorter = false
is_below level shorter = shorter

abbrev pub is_level : Sign → Bool
is_level below = false
is_level above = false
is_level level = true

-- Address::operator<
unfoldable pub less : Bytes → Bytes → Bool
less a b =
    is_below (memcmp (if leb (length a) (length b) then length a else length b) a b)
      (ltb (length a) (length b))

-- Address::operator== and operator!=
unfoldable pub same : Bytes → Bytes → Bool
same a b = length a == length b && is_level (memcmp (length a) a b)

unfoldable pub differs : Bytes → Bytes → Bool
differs a b = not (same a b)

-- CountBytes: the loop, with a bound on its turns; `none` when they do not do.
unfoldable pub count_loop : ℕ → ℕ → ℕ → Option ℕ
count_loop zero value result = none
count_loop (suc fuel) value result =
    let rest = count_loop fuel (bit_and value (value - 1)) (suc result) in
    if value == 0 then some result else rest

unfoldable pub count_bytes : ℕ → ℕ → Option ℕ
count_bytes fuel value = count_loop fuel value 0

-- CreateMask<uint32_t>: `1 << n` is an int, which has no value for 32, and one it cannot hold for 31.
unfoldable pub create_mask : ℕ → Option ℕ
create_mask bits = if leb bits 1 then none else some (2 ^ (32 - bits) - 1)

-- CreateMask<uint8_t> of less than 8 bits
unfoldable pub create_mask8 : ℕ → ℕ
create_mask8 bits = 2 ^ (8 - bits) - 1

-- sin_addr.s_addr and sin_port
pub record IPv4Address : Type 0 where
  pub addr : ℕ
  pub port : ℕ

unfoldable pub new_ipv4 : ℕ → ℕ → IPv4Address
new_ipv4 address port = record { addr = byte_swap 4 address; port = byte_swap 2 port }

unfoldable pub get_port : IPv4Address → ℕ
get_port a = byte_swap 2 a.port

unfoldable pub set_port : ℕ → IPv4Address → IPv4Address
set_port v a = record a { port = byte_swap 2 v }

-- IPv4Address::Insert
unfoldable pub ipv4_text : IPv4Address → Bytes
ipv4_text a =
    let addr = byte_swap 4 a.addr in
    codes "[IPv4 "
    ++ (decimal (addr / 16777216 % 256)
        ++ (codes "."
            ++ (decimal (addr / 65536 % 256)
                ++ (codes "."
                    ++ (decimal (addr / 256 % 256)
                        ++ (codes "."
                            ++ (decimal (addr % 256)
                                ++ (codes ":" ++ (decimal (get_port a) ++ codes "]")))))))))

-- What the code makes of an address; `undefined` has no defined result.
pub data Made (A : Type 0) : Type 0 where
  null : Made A
  undefined : Made A
  made : A → Made A

unfoldable pub with_mask : (ℕ → ℕ) → Option ℕ → IPv4Address → Made IPv4Address
with_mask f none a = undefined
with_mask f (some mask) a = made (record a { addr = f (byte_swap 4 mask) })

-- IPv4Address::BroadcastAddress
unfoldable pub broadcast_address : ℕ → IPv4Address → Made IPv4Address
broadcast_address prefix_len a =
    if ltb 32 prefix_len then null else with_mask (λ m. bit_or a.addr m) (create_mask prefix_len) a

-- IPv4Address::NetworkAddress
unfoldable pub network_address : ℕ → IPv4Address → Made IPv4Address
network_address prefix_len a =
    if ltb 32 prefix_len then null else with_mask (λ m. bit_and a.addr m) (create_mask prefix_len) a

-- IPv4Address::SubnetAddress, of a prefix of at most 32 bits
unfoldable pub subnet_address : ℕ → Made IPv4Address
subnet_address prefix_len =
    with_mask (λ m. 4294967295 - m) (create_mask prefix_len) (record { addr = 0; port = 0 })

-- The 16 bytes of an IPv6 address: `s6_addr[i] = f(s6_addr[i])`, undefined past the end, and then the
-- bytes behind it
unfoldable pub at_byte : (ℕ → ℕ) → ℕ → ℕ → Bytes → Made Bytes
at_byte f fill i [] = undefined
at_byte f fill zero (b ∷ bs) = made (f b ∷ replicate (length bs) fill)
at_byte f fill (suc i) (b ∷ bs) = elim (at_byte f fill i bs) [
  | null ↦ null
  | undefined ↦ undefined
  | made cs ↦ made (b ∷ cs)
]

-- IPv6Address::BroadcastAddress
unfoldable pub broadcast_address6 : ℕ → Bytes → Made Bytes
broadcast_address6 prefix_len a =
    at_byte (λ b. bit_or b (create_mask8 (prefix_len % 8))) 255 (prefix_len / 8) a

-- IPv6Address::NetworkAddress
unfoldable pub network_address6 : ℕ → Bytes → Made Bytes
network_address6 prefix_len a =
    at_byte (λ b. bit_and b (create_mask8 (prefix_len % 8))) 0 (prefix_len / 8) a

-- UnixAddress of a path: its length_, less the offset of sun_path; `none` is the exception. sun_path has
-- 108 bytes.
unfoldable pub unix_length : Bytes → Option ℕ
unix_length path =
    let n =
      (if (elim path [ [] ↦ false | c ∷ s ↦ c == 0 ]) then length path else length path + 1) in
    if ltb 108 n then none else some n
