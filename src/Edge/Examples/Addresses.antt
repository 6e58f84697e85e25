-- ===== src/Edge/Examples/Addresses.antt =====
-- The properties of intercepts and addresses at concrete ones.
use sdk_golang.Common.{
  ℕ, ◌+◌, ◌≡◌, ◌↔◌, refl, ◌&&◌, none, some, [], ◌∷◌, ◌++◌, arith, leb, if◌then◌else◌, length, map,
}
use sdk_golang.Common.Text.{Text}
use sdk_golang.Common.Outcome.{ok}
use sdk_golang.Edge.Intercept.{
  Names, InterceptV1Config, ZitiAddress, intercept_match, new_address, address_matches, host_target,
}
use sdk_golang.Edge.Intercept.Scores.{best_match, intercept_match-best}
use sdk_golang.Edge.Intercept.Hosts.{new_address-wildcard}

abbrev lower_case : ℕ → ℕ
lower_case c = if leb b'A' c && leb c b'Z' then c + 32 else c

-- Names without IP addresses.
abbrev test_names : Names
test_names = record {
  parse_ip = λ s. none;
  parse_cidr = λ s. none;
  to_lower = map lower_case;
  to_lower_star = λ s. refl;
  to_lower_dot = λ s. refl;
}

abbrev tcp : Text
tcp = b't' ∷ b'c' ∷ b'p' ∷ []

abbrev a_dot_z : Text
a_dot_z = b'a' ∷ b'.' ∷ b'z' ∷ []

-- The hosts below `.z` at the ports from 80 to 90.
abbrev test_intercept : InterceptV1Config
test_intercept = record {
  protocols = tcp ∷ [];
  addresses = record { cidr = none; ip = none; domain = b'*' ∷ b'.' ∷ b'z' ∷ [] } ∷ [];
  port_ranges = record { low = 80; high = 90 } ∷ [];
}

intercept_match-best_example :
    intercept_match test_names test_intercept tcp a_dot_z 85
    ≡ best_match test_names test_intercept tcp a_dot_z 85
intercept_match-best_example =
    intercept_match-best test_names test_intercept tcp a_dot_z 85 (omega arith) (tt, tt)
      (omega arith, tt)

new_address-wildcard_example :
    (address : ZitiAddress) × (new_address test_names (b'*' ∷ b'.' ∷ b'Z' ∷ []) ≡ ok address)
    × ((address_matches test_names (host_target a_dot_z) address ≡ some 1)
        ↔ ((front : Text) × (a_dot_z ≡ front ++ b'.' ∷ b'z' ∷ []) × (length front ≡ 1)))
new_address-wildcard_example =
    new_address-wildcard test_names (b'Z' ∷ []) a_dot_z 1 refl refl (omega arith)
