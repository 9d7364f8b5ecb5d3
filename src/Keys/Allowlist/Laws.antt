-- ===== src/Keys/Allowlist/Laws.antt =====
-- Which sources a service account may use.
use sovereignstack.Prelude.{
  ◌≡◌, refl, Bool, true, false, ◌||◌, List, [], ◌∷◌, ◌++◌, none, some, arith, is_empty, any,
}
use sovereignstack.Text.{Text, text_eq}
use sovereignstack.Text.Trim.{trim_space}
use sovereignstack.Keys.Profile.{UserProfile, role_service}
use sovereignstack.Keys.Allowlist.{Net, entry_matches, is_ip_allowed}

any-append : (p : Text → Bool) (xs ys : List Text) → any p (xs ++ ys) ≡ (any p xs || any p ys)
any-append p [] ys = refl
any-append p (x ∷ xs) ys = ground (arith, any-append p xs ys)

-- For a service account with an allowlist, and a source that is an address without a port: one
-- more entry on the list lets in what matches it, and what the list let in before; nothing else.
pub is_ip_allowed-append :
    (net : Net) (p : UserProfile) (entry source ip : Text)
    → text_eq p.role role_service ≡ true
    → is_empty p.ip_allowlist ≡ false
    → net.split_host_port source ≡ none
    → net.parse_ip (trim_space source) ≡ some ip
    → is_ip_allowed net (record p { ip_allowlist = p.ip_allowlist ++ entry ∷ [] }) source
      ≡ (is_ip_allowed net p source || entry_matches net ip entry)
unfolding is_ip_allowed
is_ip_allowed-append net p entry source ip service nonempty bare parsed =
    ground (
      arith,
      any-append (entry_matches net ip) p.ip_allowlist (entry ∷ []),
      not_empty p.ip_allowlist,
    )
  where
    not_empty : (xs : List Text) → is_empty (xs ++ entry ∷ []) ≡ false
    not_empty [] = refl
    not_empty (x ∷ xs) = refl

-- A restricted service account is refused from a source whose address cannot be read.
pub is_ip_allowed_fails_closed :
    (net : Net) (p : UserProfile) (source : Text)
    → text_eq p.role role_service ≡ true
    → is_empty p.ip_allowlist ≡ false
    → net.split_host_port source ≡ none
    → net.parse_ip (trim_space source) ≡ none
    → is_ip_allowed net p source ≡ false
unfolding is_ip_allowed
is_ip_allowed_fails_closed net p source service nonempty bare unreadable = ground arith
