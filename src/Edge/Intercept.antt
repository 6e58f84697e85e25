-- ===== src/Edge/Intercept.antt =====
-- zt/edge/types.go: intercepts, with the addresses and port ranges that they match.
pub mod Bounds
pub mod Scores
pub mod Hosts
use sdk_golang.Common.{
  ℕ, zero, suc, ◌+◌, ◌-◌, ◌*◌, ◌%◌, ◌^◌, ◌≡◌, Bool, true, false, not, ◌&&◌, ◌||◌, Option, none,
  some, List, [], ◌∷◌, ◌++◌, bit_and, bit_or, ltb, leb, ◌==◌, if◌then◌else◌, length, take, drop,
  replicate,
}
use sdk_golang.Common.Text.{Text, str_eq, contains, has_suffix}
use sdk_golang.Common.Outcome.{Outcome, ok, err, panic, ◌>>=◌}

-- net.IP, a slice of 4 or 16 bytes, and net.IPNet.
abbrev pub Ip : Type 0
Ip = List ℕ

pub record IpNet : Type 0 where
  pub ip : Ip
  pub mask : List ℕ

abbrev pub v4_prefix : List ℕ
v4_prefix = 0 ∷ 0 ∷ 0 ∷ 0 ∷ 0 ∷ 0 ∷ 0 ∷ 0 ∷ 0 ∷ 0 ∷ 0xff ∷ 0xff ∷ []

-- IP.To4
unfoldable pub to4 : Ip → Option Ip
to4 ip =
    if length ip == 4
    then some ip
    else if (length ip == 16) && str_eq (take 12 ip) v4_prefix
    then some (drop 12 ip)
    else none

-- IP.Equal
unfoldable pub ip_equal : Ip → Ip → Bool
ip_equal ip x =
    if length ip == length x
    then str_eq ip x
    else if (length ip == 4) && (length x == 16)
    then str_eq (take 12 x) v4_prefix && str_eq ip (drop 12 x)
    else if (length ip == 16) && (length x == 4)
    then str_eq (take 12 ip) v4_prefix && str_eq (drop 12 ip) x
    else false

-- Mask.Size: the leading ones of a byte, of a mask, and the size of a mask that has only those.
unfoldable pub leading_ones : ℕ → ℕ → Option ℕ
leading_ones zero v = if v == 0 then some 0 else none
leading_ones (suc k) v =
    let more = leading_ones k (v * 2 % 256) in
    if leb 0x80 v
    then elim more [ none ↦ none | some n ↦ some (suc n) ]
    else if v == 0
    then some 0
    else none

abbrev pub all_zero : List ℕ → Bool
all_zero [] = true
all_zero (b ∷ bs) = (b == 0) && all_zero bs

unfoldable pub mask_length : List ℕ → Option ℕ
unfolding leading_ones
mask_length [] = some 0
mask_length (v ∷ vs) =
    let more : Option ℕ = mask_length vs in
    let rest : Option ℕ = elim more [ none ↦ none | some n ↦ some (8 + n) ] in
    if v == 0xff then rest else if all_zero vs then leading_ones 8 v else none

unfoldable pub mask_size : List ℕ → ℕ × ℕ
unfolding mask_length
mask_size mask = elim (mask_length mask) [ none ↦ (0, 0) | some n ↦ (n, length mask * 8) ]

-- IPNet.Contains
abbrev pub same_network : List ℕ → List ℕ → List ℕ → Bool
same_network [] mask [] = true
same_network (a ∷ xs) (m ∷ ms) (b ∷ bs) = (bit_and a m == bit_and b m) && same_network xs ms bs
same_network _ _ _ = false

abbrev pub network_ip : IpNet → Option Ip
network_ip n = elim (to4 n.ip) [
  | some ip ↦ some ip
  | none ↦ if length n.ip == 16 then some n.ip else none
]

abbrev pub network_mask : Ip → List ℕ → Option (List ℕ)
network_mask ip mask =
    if length mask == 4
    then if length ip == 4 then some mask else none
    else if length mask == 16
    then some (if length ip == 4 then drop 12 mask else mask)
    else none

abbrev pub masked_contains : Option Ip → List ℕ → Ip → Bool
masked_contains none mask ip = false
masked_contains (some nn) mask ip = elim (network_mask nn mask) [
  | none ↦ false
  | some m ↦ (length ip == length nn) && same_network nn m ip
]

unfoldable pub net_contains : IpNet → Ip → Bool
unfolding to4
net_contains n ip =
    let short : Ip = elim (to4 ip) [ some x ↦ x | none ↦ ip ] in
    masked_contains (network_ip n) n.mask short

-- What is used of the text syntax of addresses and of Unicode: net.ParseIP and net.ParseCIDR, and
-- strings.ToLower, which goes rune by rune and keeps `*` and `.`.
pub record Names : Type 0 where
  pub parse_ip : Text → Option Ip
  pub parse_cidr : Text → Option IpNet
  pub to_lower : Text → Text
  pub to_lower_star : (s : Text) → to_lower (b'*' ∷ s) ≡ b'*' ∷ to_lower s
  pub to_lower_dot : (s : Text) → to_lower (b'.' ∷ s) ≡ b'.' ∷ to_lower s

-- DomainName.Match. A score of -1 is `none`.
unfoldable pub domain_match : Text → Text → Option ℕ
domain_match [] hostname = none
domain_match (c ∷ domain) hostname =
    if c == b'*'
    then if has_suffix hostname domain then some (length hostname - length domain) else none
    else if str_eq hostname (c ∷ domain)
    then some 0
    else none

pub record PortRange : Type 0 where
  pub low : ℕ
  pub high : ℕ

-- PortRange.Match
unfoldable pub port_match : ℕ → PortRange → Option ℕ
port_match port pr = if leb pr.low port && leb port pr.high then some (pr.high - pr.low) else none

-- The target of ZitiAddress.Matches, an IP or a string.
pub data Target : Type 0 where
  ip_target : Ip → Target
  host_target : Text → Target

pub record ZitiAddress : Type 0 where
  pub cidr : Option IpNet
  pub ip : Option Ip
  pub domain : Text

-- ZitiAddress.Matches for an IP.
unfoldable pub ip_matches : Option Ip → Option IpNet → Ip → Option ℕ
unfolding ip_equal net_contains mask_size
ip_matches (some own) cidr ip = if ip_equal ip own then some 0 else none
ip_matches none (some net) ip =
    let (ones, bits) = mask_size net.mask in
    if net_contains net ip then some (bits - ones) else none
ip_matches none none ip = none

pub record InterceptV1Config : Type 0 where
  pub addresses : List ZitiAddress
  pub port_ranges : List PortRange
  pub protocols : List Text

-- The two loops of Match over addresses and over port ranges: the lowest score, where a score of 0
-- ends the loop.
unfoldable pub lowest_score : {A : Type 0} → (A → Option ℕ) → Option ℕ → List A → Option ℕ
lowest_score score best [] = best
lowest_score score best (a ∷ xs) = elim (score a) [
  | none ↦ lowest_score score best xs
  | some n ↦
      let kept = lowest_score score best xs in
      let better = lowest_score score (some n) xs in
      if n == 0
      then some 0
      else elim best [ none ↦ better | some m ↦ if ltb n m then better else kept ]
]

abbrev pub pair_score : ℕ → ℕ → ℕ
pair_score addr_score port_score = bit_or (addr_score * 2 ^ 16 % 2 ^ 64) (bit_and port_score 0xffff)

-- What Match returns for the best address score and the best port score.
unfoldable pub match_score : Option ℕ → Option ℕ → Option ℕ
match_score none ports = none
match_score (some addr_score) none = none
match_score (some addr_score) (some port_score) = some (pair_score addr_score port_score)

-- ClientConfig.ToInterceptV1Config; `port` is the bit pattern of an int.
unfoldable pub to_intercept : ZitiAddress → ℕ → InterceptV1Config
to_intercept hostname port = record {
  protocols = (b't' ∷ b'c' ∷ b'p' ∷ []) ∷ (b'u' ∷ b'd' ∷ b'p' ∷ []) ∷ [];
  addresses = hostname ∷ [];
  port_ranges = record { low = port % 2 ^ 16; high = port % 2 ^ 16 } ∷ [];
}

pub data AddressError : Type 0 where
  invalid_address invalid_wildcard : AddressError

abbrev pub starts_wild : Text → Bool
starts_wild (c ∷ d ∷ s) = (c == b'*') && not (d == b'.')
starts_wild _ = false

module _ (names : Names) where
  unfoldable pub address_matches : Target → ZitiAddress → Option ℕ
  unfolding ip_matches domain_match
  address_matches (ip_target ip) address = ip_matches address.ip address.cidr ip
  address_matches (host_target hostname) address =
      domain_match address.domain (names.to_lower hostname)

  -- The target that Match makes of a hostname.
  unfoldable pub target_of : Text → Target
  target_of hostname = elim (names.parse_ip hostname) [
    | none ↦ host_target hostname
    | some ip ↦ if length ip == 0 then host_target hostname else ip_target ip
  ]

  -- InterceptV1Config.Match
  unfoldable pub intercept_match : InterceptV1Config → Text → Text → ℕ → Option ℕ
  intercept_match intercept network hostname port =
      if not (contains intercept.protocols network)
      then none
      else match_score
          (lowest_score (address_matches (target_of hostname)) none intercept.addresses)
          (lowest_score (port_match port) none intercept.port_ranges)

  -- ZitiAddress.UnmarshalText for a text, and what net.ParseCIDR and net.ParseIP make of it.
  unfoldable pub unmarshal_parsed :
      Option IpNet → Option Ip → Text → ZitiAddress → Outcome AddressError ZitiAddress
  unmarshal_parsed (some cidr) ip v address = ok (record address { cidr = some cidr })
  unmarshal_parsed none (some ip) v address = ok (record address { ip = some ip })
  unmarshal_parsed none none v address =
      if ltb (length v) 3
      then err invalid_address
      else if starts_wild v
      then err invalid_wildcard
      else ok (record address { domain = names.to_lower v })

  -- ZitiAddress.UnmarshalText
  unfoldable pub unmarshal_text : Text → ZitiAddress → Outcome AddressError ZitiAddress
  unfolding unmarshal_parsed
  unmarshal_text v address = unmarshal_parsed (names.parse_cidr v) (names.parse_ip v) v address

  -- NewZitiAddress
  unfoldable pub new_address : Text → Outcome AddressError ZitiAddress
  unfolding unmarshal_text
  new_address v = unmarshal_text v (record { cidr = none; ip = none; domain = [] })
