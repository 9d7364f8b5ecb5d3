-- ===== src/Gateway/ClientIp/Spoof.antt =====
-- The client address is the one that the client claims.
use mathlib.Core.List.{append-nil}
use sovereignstack.Prelude.{
  ℕ, zero, suc, ◌≡◌, refl, ap, ◌∙◌, false, arith, [], ◌∷◌, ◌++◌, Option, none, some, is_empty,
}
use sovereignstack.Text.{Text, codes}
use sovereignstack.Text.Split.{Free, split, split-append, split-eq_of_Free}
use sovereignstack.Text.Trim.{Trimmed, trim_space, trim_space-blanks, blanks}
use sovereignstack.Gateway.ClientIp.{Request, comma, first, get_client_ip}

-- what stands behind the first address: nothing, or a comma and the rest
abbrev pub behind : Option Text → Text
behind none = []
behind (some rest) = comma ∷ rest

Free-append : (a b : Text) → Free comma a → Free comma b → Free comma (a ++ b)
Free-append [] b fa fb = fb
Free-append (x ∷ a) b fa fb = (fa.0, Free-append a b fa.1 fb)

blanks-Free : (n : ℕ) → Free comma (blanks n)
blanks-Free zero = tt
blanks-Free (suc n) = (refl, blanks-Free n)

header_filled :
    (n : ℕ) (claimed t behind_it : Text)
    → is_empty claimed ≡ false
    → is_empty ((blanks n ++ (claimed ++ t)) ++ behind_it) ≡ false
header_filled zero [] t u filled = absurd (ground arith)
header_filled zero (c ∷ claimed) t u filled = refl
header_filled (suc n) claimed t u filled = refl

first_part :
    (padded : Text) (rest : Option Text) (d : Text)
    → Free comma padded
    → first (split comma (padded ++ behind rest)) d ≡ padded
first_part padded none d free =
    ap (λ t. first (split comma t) d) (append-nil padded)
    ∙ ap (λ parts. first parts d) (split-eq_of_Free comma padded free)
first_part padded (some rest) d free =
    ap (λ parts. first parts d) (split-append comma padded rest free)

-- A request whose X-Forwarded-For starts with an address, with any spaces around it and anything
-- behind a comma, has that address as its client address, whatever connection it came over and
-- whatever other proxies are listed.
pub get_client_ip-forwarded :
    (r : Request) (n m : ℕ) (claimed : Text) (rest : Option Text)
    → r.header (codes "X-Forwarded-For") ≡ (blanks n ++ (claimed ++ blanks m)) ++ behind rest
    → is_empty claimed ≡ false
    → Free comma claimed
    → Trimmed claimed
    → get_client_ip r ≡ claimed
unfolding get_client_ip
get_client_ip-forwarded r n m claimed rest sent filled free trimmed =
    let padded = blanks n ++ (claimed ++ blanks m) in
    let separate : Free comma padded =
      Free-append (blanks n) (claimed ++ blanks m) (blanks-Free n)
        (Free-append claimed (blanks m) free (blanks-Free m)) in
    rw (sent, header_filled n claimed (blanks m) (behind rest) filled)
      (ap trim_space (first_part padded rest _ separate)
        ∙ trim_space-blanks n m claimed filled trimmed)
