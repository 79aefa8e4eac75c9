-- ===== src/Network/SafeDial.antt =====
-- internal/xrpc/safedial.go: the dialer of outbound requests connects to public addresses only.
use robby.Prelude.{ℕ, ◌+◌, ◌*◌, ◌^◌, Bool, true, false, ◌&&◌, not, none, some, List, [], ◌∷◌}
use robby.Network.Addr.{Addr, unmap, Prefix, prefix4, prefix6, is_global_unicast, addr_from_slice}
use robby.Network.ClientIp.{addr_in_prefixes}

abbrev pub quad : ℕ → ℕ → ℕ → ℕ → ℕ
quad a b c d = ((a * 256 + b) * 256 + c) * 256 + d

-- nonPublicPrefixes, in the source's order.
unfoldable pub non_public_prefixes : List Prefix
non_public_prefixes =
    prefix4 (quad 0 0 0 0) 8
    ∷ prefix4 (quad 10 0 0 0) 8
    ∷ prefix4 (quad 100 64 0 0) 10
    ∷ prefix4 (quad 127 0 0 0) 8
    ∷ prefix4 (quad 169 254 0 0) 16
    ∷ prefix4 (quad 172 16 0 0) 12
    ∷ prefix4 (quad 192 0 0 0) 24
    ∷ prefix4 (quad 192 0 2 0) 24
    ∷ prefix4 (quad 192 88 99 0) 24
    ∷ prefix4 (quad 192 168 0 0) 16
    ∷ prefix4 (quad 198 18 0 0) 15
    ∷ prefix4 (quad 198 51 100 0) 24
    ∷ prefix4 (quad 203 0 113 0) 24
    ∷ prefix4 (quad 224 0 0 0) 4
    ∷ prefix4 (quad 240 0 0 0) 4
    ∷ prefix6 0 128
    ∷ prefix6 1 128
    ∷ prefix6 (65535 * 2 ^ 32) 96
    ∷ prefix6 (100 * 2 ^ 112 + 65435 * 2 ^ 96 + 2 ^ 80) 48
    ∷ prefix6 (256 * 2 ^ 112) 64
    ∷ prefix6 (8193 * 2 ^ 112 + 2 * 2 ^ 96) 48
    ∷ prefix6 (8193 * 2 ^ 112 + 3512 * 2 ^ 96) 32
    ∷ prefix6 (64512 * 2 ^ 112) 7
    ∷ prefix6 (65152 * 2 ^ 112) 10
    ∷ prefix6 (65280 * 2 ^ 112) 8
    ∷ []

abbrev pub is_public : Addr → Bool
is_public addr = is_global_unicast addr && not (addr_in_prefixes addr non_public_prefixes)

unfoldable pub is_public_ip : List ℕ → Bool
is_public_ip ip = elim (addr_from_slice ip) [ none ↦ false | some addr ↦ is_public (unmap addr) ]

-- What a dial ends with: a connection to an address, or an error; `refused` is a non-public address.
pub data Dialed : Type 0 where
  connected : List ℕ → Dialed
  no_addresses failed : Dialed
  refused : List ℕ → Dialed

-- The loop over the resolved addresses, with the addresses it dials. `dial` is whether the network
-- lets a connection be made, and `last` the last error.
unfoldable pub dial_first : (List ℕ → Bool) → Dialed → List (List ℕ) → Dialed × List (List ℕ)
dial_first dial last [] = (last, [])
dial_first dial last (ip ∷ ips) = elim (is_public_ip ip) [
  | false ↦ dial_first dial (refused ip) ips
  | true ↦ elim (dial ip) [
    | true ↦ (connected ip, ip ∷ [])
    | false ↦ (let (out, tried) = dial_first dial failed ips in (out, ip ∷ tried))
  ]
]

-- safeDialContext, from the addresses that the host resolves to.
unfoldable pub safe_dial_context : (List ℕ → Bool) → List (List ℕ) → Dialed × List (List ℕ)
safe_dial_context dial [] = (no_addresses, [])
safe_dial_context dial (ip ∷ ips) = dial_first dial failed (ip ∷ ips)
