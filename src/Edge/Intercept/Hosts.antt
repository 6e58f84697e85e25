-- ===== src/Edge/Intercept/Hosts.antt =====
-- Host names that an address matches.
use sdk_golang.Common.{
  ℕ, suc, ◌-◌, ◌<◌, ◌≡◌, refl, ap, ◌∙◌, inl, inr, true, false, none, some, [], ◌∷◌, ◌++◌, arith,
  ltb, if◌then◌else◌, length, ◌↔◌, Bool-cases, length-append,
}
use sdk_golang.Common.Text.{Text, has_suffix, has_suffix-append, has_suffix-split}
use sdk_golang.Common.Outcome.{ok}
use sdk_golang.Edge.Intercept.{
  Names, ZitiAddress, host_target, domain_match, address_matches, new_address, unmarshal_parsed,
}

-- A text that is no IP address and no network, as a parsed address.
abbrev pub domain_address : Text → ZitiAddress
domain_address domain = record { cidr = none; ip = none; domain = domain }

suffix_score :
    (hostname domain : Text) (n : ℕ)
    → ((if has_suffix hostname domain then some (length hostname - length domain) else none)
        ≡ some n)
      ↔ ((front : Text) × (hostname ≡ front ++ domain) × (length front ≡ n))
suffix_score hostname domain n = (
  λ e. elim (Bool-cases (has_suffix hostname domain)) [
    | inl ends ↦
        let (front, split, long) = has_suffix-split hostname domain ends in
        let score : some (length hostname - length domain) ≡ some n = rw ends at e in
        let is_n : length hostname - length domain ≡ n = cc in (front, split, long ∙ is_n)
    | inr other ↦ absurd (let no : none ≡ some n = rw other at e in cc)
  ],
  λ (front, split, long).
      let ends : has_suffix hostname domain ≡ true =
        ap (λ h. has_suffix h domain) split ∙ has_suffix-append front domain in
      rw ends (ap some (omega (arith, ap length split, length-append front domain, long))),
)

-- A text `*.` with a name behind it, which is no IP address or network, makes an address. It
-- matches a hostname with score n exactly if the hostname in lower case is n bytes in front of `.`
-- and the name in lower case.
pub new_address-wildcard :
    (names : Names) (name hostname : Text) (n : ℕ)
    → names.parse_cidr (b'*' ∷ b'.' ∷ name) ≡ none
    → names.parse_ip (b'*' ∷ b'.' ∷ name) ≡ none
    → 0 < length name
    → (address : ZitiAddress) × (new_address names (b'*' ∷ b'.' ∷ name) ≡ ok address)
      × ((address_matches names (host_target hostname) address ≡ some n) ↔ (
          (front : Text) × (names.to_lower hostname ≡ front ++ b'.' ∷ names.to_lower name)
          × (length front ≡ n)))
unfolding new_address unmarshal_parsed address_matches domain_match
new_address-wildcard names name hostname n no_cidr no_ip some_name =
    let lowered : names.to_lower (b'*' ∷ b'.' ∷ name) ≡ b'*' ∷ b'.' ∷ names.to_lower name =
      names.to_lower_star (b'.' ∷ name) ∙ ap (λ t. b'*' ∷ t) (names.to_lower_dot name) in
    let v = b'*' ∷ b'.' ∷ name in
    let blank : ZitiAddress = domain_address [] in
    let long : ltb (suc (suc (length name))) 3 ≡ false = ground (arith, some_name) in
    (
      domain_address (b'*' ∷ b'.' ∷ names.to_lower name),
      ap (λ c. unmarshal_parsed names c (names.parse_ip v) v blank) no_cidr
          ∙ ap (λ i. unmarshal_parsed names none i v blank) no_ip
          ∙ rw (long, lowered) refl,
      suffix_score (names.to_lower hostname) (b'.' ∷ names.to_lower name) n,
    )
