-- ===== src/Keys/Allowlist.antt =====
-- core/keys/ipallowlist.go: the source addresses of a service account. The parsing of addresses and
-- networks by the package net is a parameter.
pub mod Laws
use sovereignstack.Prelude.{
  Bool, true, false, not, List, [], ◌∷◌, Option, none, some, if◌then◌else◌, is_empty, any,
}
use sovereignstack.Text.{Text, codes, text_eq}
use sovereignstack.Text.Trim.{trim_space, contains}
use sovereignstack.Keys.Profile.{UserProfile, role_service}

pub record Net : Type 0 where
  -- net.SplitHostPort: the host, or the error
  pub split_host_port : Text → Option Text
  -- net.ParseIP: the 16-byte form; equal addresses have equal forms
  pub parse_ip : Text → Option Text
  -- net.ParseCIDR: the network, as its test of an address
  pub parse_cidr : Text → Option (Text → Bool)

abbrev host_of : Option Text → Text → Text
host_of none source = source
host_of (some h) source = h

-- one round of the loop over the entries
unfoldable pub entry_matches : Net → Text → Text → Bool
entry_matches net ip raw =
    let entry = trim_space raw in
    if is_empty entry
    then false
    else if contains entry (codes "/")
    then elim (net.parse_cidr entry) [ none ↦ false | some cidr ↦ cidr ip ]
    else elim (net.parse_ip entry) [ none ↦ false | some rhs ↦ text_eq rhs ip ]

unfoldable pub is_ip_allowed : Net → UserProfile → Text → Bool
is_ip_allowed net p source =
    if not (text_eq p.role role_service)
    then true
    else if is_empty p.ip_allowlist
    then true
    else elim (net.parse_ip (trim_space (host_of (net.split_host_port source) source))) [
      | none ↦ false
      | some ip ↦ any (entry_matches net ip) p.ip_allowlist
    ]
