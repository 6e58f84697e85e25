-- ===== src/Edge/Intercept/Bounds.antt =====
-- Bounds of the scores of addresses and ports.
use sdk_golang.Common.{
  ℕ, zero, suc, ◌*◌, ◌%◌, ◌^◌, ◌≤◌, ◌<◌, ◌≡◌, refl, inl, inr, Bool, true, false, Option, none, some,
  List, [], ◌∷◌, arith, if◌then◌else◌, Option-cases, length,
}
use sdk_golang.Common.Text.{Text}
use sdk_golang.Common.Words.{IsU16}
use sdk_golang.Edge.Intercept.{
  Names, Ip, IpNet, Target, ip_target, host_target, mask_size, mask_length, leading_ones,
  net_contains, ip_equal, ip_matches, domain_match, PortRange, ZitiAddress, port_match,
  address_matches,
}

-- The masks of the addresses have at most 16 bytes, as those of net.ParseCIDR do.
abbrev ShortNet : Option IpNet → Type 0
ShortNet none = Unit {0}
ShortNet (some net) = length net.mask ≤ 16

abbrev pub ShortMask : ZitiAddress → Type 0
ShortMask address = ShortNet address.cidr

leading_ones_bound : (k v n : ℕ) → leading_ones k v ≡ some n → n ≤ k
unfolding leading_ones
leading_ones_bound zero v n e = ground (arith, e)
leading_ones_bound (suc k) v n e = elim (Option-cases (leading_ones k (v * 2 % 256))) [
  | inl odd ↦ ground (arith, e, odd)
  | inr (m, more) ↦ ground (arith, e, more, leading_ones_bound k (v * 2 % 256) m more)
]

mask_length_bound : (mask : List ℕ) (n : ℕ) → mask_length mask ≡ some n → n ≤ length mask * 8
unfolding mask_length
mask_length_bound [] n e = ground (arith, e)
mask_length_bound (v ∷ vs) n e = elim (Option-cases (mask_length vs)) [
  | inl odd ↦ ground (arith, e, odd, leading_ones_bound 8 v n)
  | inr (m, more) ↦ ground (arith, e, more, mask_length_bound vs m more, leading_ones_bound 8 v n)
]

mask_size_bound : (mask : List ℕ) → (mask_size mask).1 ≤ length mask * 8
unfolding mask_size
mask_size_bound mask = elim (Option-cases (mask_length mask)) [
  | inl odd ↦ rw (odd, mask_size) (omega arith)
  | inr (n, plain) ↦ rw (plain, mask_size) (omega (arith, mask_length_bound mask n plain))
]

guarded : (b : Bool) (m n : ℕ) → (if b then some m else none) ≡ some n → m ≡ n
guarded true m n e = cc
guarded false m n e = cc

ip_matches_bound :
    (own : Option Ip) (cidr : Option IpNet) (ip : Ip) (n : ℕ)
    → ShortNet cidr
    → ip_matches own cidr ip ≡ some n
    → n ≤ 128
unfolding ip_matches
ip_matches_bound (some own) cidr ip n short e = omega (arith, guarded (ip_equal ip own) 0 n e)
ip_matches_bound none (some net) ip n short e =
    let is_n = guarded (net_contains net ip) _ n e in
    omega (arith, is_n, short, mask_size_bound net.mask)
ip_matches_bound none none ip n short e = cc

domain_match_bound :
    (domain hostname : Text) (n : ℕ) → domain_match domain hostname ≡ some n → n ≤ length hostname
unfolding domain_match
domain_match_bound [] hostname n e = cc
domain_match_bound (c ∷ domain) hostname n e = ground (arith, e)

pub address_matches_bound :
    (names : Names) (target : Target) (address : ZitiAddress) (n : ℕ)
    → ((hostname : Text)
        → target ≡ host_target hostname
        → length (names.to_lower hostname) < 2 ^ 47)
    → ShortMask address
    → address_matches names target address ≡ some n
    → n < 2 ^ 48
unfolding address_matches
address_matches_bound names (ip_target ip) address n small short e =
    omega (arith, ip_matches_bound address.ip address.cidr ip n short e)
address_matches_bound names (host_target hostname) address n small short e =
    omega (arith, small hostname refl, domain_match_bound address.domain _ n e)

pub port_match_bound :
    (port : ℕ) (pr : PortRange) (n : ℕ) → IsU16 pr.high → port_match port pr ≡ some n → n < 2 ^ 16
unfolding port_match
port_match_bound port pr n word e = ground (arith, e, word)
