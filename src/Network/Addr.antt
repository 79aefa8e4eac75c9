-- ===== src/Network/Addr.antt =====
-- What internal/xrpc/clientip.go and safedial.go use of Go's net/netip: an address is its 32 or 128 bits as
-- one number. Zones are not modelled.
use robby.Prelude.{
  ℕ, ◌+◌, ◌-◌, ◌*◌, ◌/◌, ◌^◌, Bool, true, false, ◌&&◌, ◌||◌, not, Option, none, some, List, [], ◌∷◌,
  ◌==◌, nat_eq, if◌then◌else◌, length,
}

pub data Addr : Type 0 where
  unusable : Addr
  v4 v6 : ℕ → Addr

abbrev pub addr_beq : Addr → Addr → Bool
addr_beq unusable unusable = true
addr_beq (v4 a) (v4 b) = a == b
addr_beq (v6 a) (v6 b) = a == b
addr_beq _ _ = false

abbrev pub mapped : ℕ
mapped = 65535 * 2 ^ 32

-- Unmap: an IPv4 address inside IPv6 is that IPv4 address.
unfoldable pub unmap : Addr → Addr
unmap unusable = unusable
unmap (v4 n) = v4 n
unmap (v6 n) = if n / 2 ^ 32 == 65535 then v4 (n - mapped) else v6 n

unfoldable pub is_loopback : Addr → Bool
is_loopback unusable = false
is_loopback (v4 n) = n / 2 ^ 24 == 127
is_loopback (v6 n) = n == 1

unfoldable pub is_multicast : Addr → Bool
is_multicast unusable = false
is_multicast (v4 n) = n / 2 ^ 28 == 14
is_multicast (v6 n) = n / 2 ^ 120 == 255

unfoldable pub is_link_local_unicast : Addr → Bool
is_link_local_unicast unusable = false
is_link_local_unicast (v4 n) = n / 2 ^ 16 == 43518
is_link_local_unicast (v6 n) = n / 2 ^ 118 == 1018

unfoldable pub is_unspecified : Addr → Bool
is_unspecified unusable = false
is_unspecified (v4 n) = n == 0 || n == 4294967295
is_unspecified (v6 n) = n == 0

-- IsGlobalUnicast, which refuses 0.0.0.0 and 255.255.255.255 as well.
unfoldable pub is_global_unicast : Addr → Bool
unfolding is_unspecified
is_global_unicast unusable = false
is_global_unicast a =
    not (is_unspecified a)
    && not (is_loopback a)
    && not (is_multicast a)
    && not (is_link_local_unicast a)

-- A prefix: the bits of its address and how many of them count.
pub data Prefix : Type 0 where
  prefix4 prefix6 : ℕ → ℕ → Prefix

unfoldable pub contains : Prefix → Addr → Bool
contains (prefix4 base bits) (v4 n) = n / 2 ^ (32 - bits) == base / 2 ^ (32 - bits)
contains (prefix6 base bits) (v6 n) = n / 2 ^ (128 - bits) == base / 2 ^ (128 - bits)
contains _ _ = false

unfoldable pub number : List ℕ → ℕ → ℕ
number [] acc = acc
number (b ∷ bs) acc = number bs (acc * 256 + b)

-- AddrFromSlice, of 4 or 16 bytes.
unfoldable pub addr_from_slice : List ℕ → Option Addr
unfolding number
addr_from_slice ip =
    if length ip == 4
    then some (v4 (number ip 0))
    else if length ip == 16
    then some (v6 (number ip 0))
    else none
