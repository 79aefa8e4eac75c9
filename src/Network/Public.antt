-- ===== src/Network/Public.antt =====
-- internal/xrpc/safedial.go: what isPublicIP refuses, in the octets of an address, and that safeDialContext
-- dials nothing else.
use robby.Prelude.{
  ℕ, ◌+◌, ◌*◌, ◌/◌, ◌-◌, ◌==◌, nat_eq, ◌<◌, ◌≤◌, Bool, true, false, List, [], ◌∷◌, ◌≡◌, ◌≢◌, refl,
  ap, ◌∙◌, arith, inl, inr, Bool-cases, ◌⊎◌, All, subst,
}
use robby.Network.Addr.{Addr, v4, v6, unmap, mapped, Prefix, contains, addr_from_slice}
use robby.Network.ClientIp.{addr_in_prefixes}
use robby.Network.SafeDial.{
  quad, non_public_prefixes, is_public, is_public_ip, Dialed, connected, refused, failed,
  dial_first, safe_dial_context,
}

none_contains :
    (a : Addr) (ps : List Prefix)
    → addr_in_prefixes a ps ≡ false
    → All (λ p. contains p a ≡ false) ps
unfolding addr_in_prefixes
none_contains a [] h = tt
none_contains a (p ∷ ps) h = (ground arith, none_contains a ps (ground arith))

-- The octets of an address that is refused: this network, private, shared, loopback, link-local,
-- multicast and reserved ones.
abbrev pub Internal : ℕ → ℕ → Type 0
Internal a b =
    (a ≡ 0)
    ⊎ (a ≡ 10)
    ⊎ (a ≡ 127)
    ⊎ ((a ≡ 100) × (64 ≤ b) × (b < 128))
    ⊎ ((a ≡ 169) × (b ≡ 254))
    ⊎ ((a ≡ 172) × (16 ≤ b) × (b < 32))
    ⊎ ((a ≡ 192) × (b ≡ 168))
    ⊎ (224 ≤ a)

prefixes_refuse :
    (a b c d : ℕ)
    → a < 256
    → b < 256
    → c < 256
    → d < 256
    → addr_in_prefixes (v4 (quad a b c d)) non_public_prefixes ≡ false
    → ¬ Internal a b
unfolding non_public_prefixes contains
prefixes_refuse a b c d ha hb hc hd h =
    let r = none_contains (v4 (quad a b c d)) non_public_prefixes h in
    let this_network : a ≢ 0 = ground (arith, r.0) in
    let private_ten : a ≢ 10 = ground (arith, r.1.0) in
    let loopback : a ≢ 127 = ground (arith, r.1.1.1.0) in
    let shared : ¬ ((a ≡ 100) × (64 ≤ b) × (b < 128)) = λ e. ground (arith, e, r.1.1.0) in
    let link_local : ¬ ((a ≡ 169) × (b ≡ 254)) = λ e. ground (arith, e, r.1.1.1.1.0) in
    let private_172 : ¬ ((a ≡ 172) × (16 ≤ b) × (b < 32)) = λ e. ground (arith, e, r.1.1.1.1.1.0) in
    let private_192 : ¬ ((a ≡ 192) × (b ≡ 168)) = λ e. ground (arith, e, r.1.1.1.1.1.1.1.1.1.0) in
    let below : a < 224 =
      ground (arith, r.1.1.1.1.1.1.1.1.1.1.1.1.1.0, r.1.1.1.1.1.1.1.1.1.1.1.1.1.1.0) in
    λ i. elim i [
      | inl e ↦ this_network e
      | inr (inl e) ↦ private_ten e
      | inr (inr (inl e)) ↦ loopback e
      | inr (inr (inr (inl e))) ↦ shared e
      | inr (inr (inr (inr (inl e)))) ↦ link_local e
      | inr (inr (inr (inr (inr (inl e))))) ↦ private_172 e
      | inr (inr (inr (inr (inr (inr (inl e)))))) ↦ private_192 e
      | inr (inr (inr (inr (inr (inr (inr e)))))) ↦ omega arith
    ]

unmap_mapped :
    (a b c d : ℕ)
    → a < 256
    → b < 256
    → c < 256
    → d < 256
    → unmap (v6 ((((16776960 + a) * 256 + b) * 256 + c) * 256 + d)) ≡ v4 (quad a b c d)
unfolding unmap
unmap_mapped a b c d ha hb hc hd = rw (test, offset) refl
  where
    n : ℕ
    n = (((16776960 + a) * 256 + b) * 256 + c) * 256 + d

    test : (n / 4294967296 == 65535) ≡ true
    test = ground arith

    offset : n - mapped ≡ quad a b c d
    offset = omega arith

public-prefixes : (a : Addr) → is_public a ≡ true → addr_in_prefixes a non_public_prefixes ≡ false
public-prefixes a h = ground arith

-- An IPv4 address that isPublicIP accepts is in no internal range, whether it is given in 4 bytes or,
-- mapped into IPv6, in 16.
pub is_public_ip-Internal :
    (a b c d : ℕ)
    → a < 256
    → b < 256
    → c < 256
    → d < 256
    → is_public_ip (a ∷ b ∷ c ∷ d ∷ []) ≡ true
    → (¬ Internal a b)
      × (is_public_ip (0 ∷ 0 ∷ 0 ∷ 0 ∷ 0 ∷ 0 ∷ 0 ∷ 0 ∷ 0 ∷ 0 ∷ 255 ∷ 255 ∷ a ∷ b ∷ c ∷ d ∷ [])
          ≡ true)
unfolding is_public_ip addr_from_slice unmap
is_public_ip-Internal a b c d ha hb hc hd h =
    let same : (((0 + a) * 256 + b) * 256 + c) * 256 + d ≡ quad a b c d = omega arith in
    let public = subst (λ n. is_public (v4 n) ≡ true) same h in
    (
      prefixes_refuse a b c d ha hb hc hd (public-prefixes (v4 (quad a b c d)) public),
      ap is_public (unmap_mapped a b c d ha hb hc hd) ∙ public,
    )

module _ (dial : List ℕ → Bool) (last : Dialed) (ip : List ℕ) (ips : List (List ℕ)) where
  dial_first-refused :
      is_public_ip ip ≡ false → dial_first dial last (ip ∷ ips) ≡ dial_first dial (refused ip) ips
  unfolding dial_first
  dial_first-refused h = ground arith

  dial_first-connected :
      is_public_ip ip ≡ true
      → dial ip ≡ true
      → dial_first dial last (ip ∷ ips) ≡ (connected ip, ip ∷ [])
  unfolding dial_first
  dial_first-connected h k = ground arith

  dial_first-failed :
      is_public_ip ip ≡ true
      → dial ip ≡ false
      → dial_first dial last (ip ∷ ips)
        ≡ ((dial_first dial failed ips).0, ip ∷ (dial_first dial failed ips).1)
  unfolding dial_first
  dial_first-failed h k = ground arith

abbrev pub Public : List ℕ → Type 0
Public ip = is_public_ip ip ≡ true

dial_first-Public :
    (dial : List ℕ → Bool) (last : Dialed) (ips : List (List ℕ))
    → All Public (dial_first dial last ips).1
dial_first-Public dial last [] = unfold dial_first in tt
dial_first-Public dial last (ip ∷ ips) = elim (Bool-cases (is_public_ip ip)) [
  | inr e ↦ rw (dial_first-refused dial last ip ips e) (dial_first-Public dial (refused ip) ips)
  | inl e ↦ elim (Bool-cases (dial ip)) [
    | inl up ↦ rw (dial_first-connected dial last ip ips e up) (e, tt)
    | inr down ↦
        rw (dial_first-failed dial last ip ips e down) (e, dial_first-Public dial failed ips)
  ]
]

-- Whatever a host resolves to and whatever the network answers, safeDialContext dials public
-- addresses only.
pub safe_dial_context-Public :
    (dial : List ℕ → Bool) (ips : List (List ℕ)) → All Public (safe_dial_context dial ips).1
unfolding safe_dial_context
safe_dial_context-Public dial [] = tt
safe_dial_context-Public dial (ip ∷ ips) = dial_first-Public dial failed (ip ∷ ips)
