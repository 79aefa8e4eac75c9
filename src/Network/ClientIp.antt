-- ===== src/Network/ClientIp.antt =====
-- internal/xrpc/clientip.go: the address that policy decisions are taken on. Go's parsers of addresses are
-- the parameters `split_host` and `parse_addr`; an absent header is the empty text.
use robby.Prelude.{
  String, Bool, true, false, ◌&&◌, not, Option, none, some, List, [], ◌∷◌, ◌==◌, string_eq,
  if◌then◌else◌,
}
use robby.Network.Addr.{Addr, unusable, unmap, is_loopback, Prefix, contains}

-- SplitHostPort's host, or the whole text where it fails, and ParseAddr.
pub record Parsers : Type 0 where
  pub split_host : String → Option String
  pub parse_addr : String → Option Addr

abbrev pub host_of : Parsers → String → String
host_of ps remote = elim (ps.split_host remote) [ none ↦ remote | some host ↦ host ]

abbrev header_addr : Option Addr → Addr
header_addr none = unusable
header_addr (some addr) = unmap addr

-- The address for a peer that parsed.
unfoldable pub effective : Parsers → Addr → String → Addr
effective ps peer cf =
    if is_loopback peer && not (cf == "") then header_addr (ps.parse_addr cf) else peer

abbrev for_peer : Parsers → String → Option Addr → Addr
for_peer ps cf none = unusable
for_peer ps cf (some peer) = effective ps (unmap peer) cf

-- `remote` is RemoteAddr and `cf` the header CF-Connecting-IP.
unfoldable pub client_addr : Parsers → String → String → Addr
client_addr ps remote cf = for_peer ps cf (ps.parse_addr (host_of ps remote))

unfoldable pub addr_in_prefixes : Addr → List Prefix → Bool
addr_in_prefixes addr [] = false
addr_in_prefixes addr (p ∷ ps) = if contains p addr then true else addr_in_prefixes addr ps
