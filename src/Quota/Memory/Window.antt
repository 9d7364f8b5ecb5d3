-- ===== src/Quota/Memory/Window.antt =====
-- One table of counters: what an addition adds, and when a counter starts over.
use sovereignstack.Prelude.{
  ◌≡◌, ◌≢◌, ap, false, List, [], ◌∷◌, some, arith, All, if◌then◌else◌, Option-cases, inl, inr,
}
use sovereignstack.Text.{Text, text_eq_refl}
use sovereignstack.Int64.{ℤ, pos, add64}
use sovereignstack.Dict.{Dict, get, get-put, get-put_ne}
use sovereignstack.Calendar.{Instant, after}
use sovereignstack.Quota.Memory.{MemoryCounter, add_to, get_from, shown}

-- The reset time that a table computes does not lie before the instant that it is computed at.
abbrev pub Forward : (Instant → Instant) → Type 0
Forward reset = (now : Instant) → after now (reset now) ≡ false

module _ (reset : Instant → Instant) (forward : Forward reset) (now : Instant)
    (m : Dict MemoryCounter) (u : Text) where
  -- An addition adds to what the counter shows at that instant: 0 where its window is over.
  pub get_from-add_to :
      (t : ℤ) → get_from now (add_to reset now m u t) u ≡ add64 (get_from now m u) t
  unfolding get_from add_to
  get_from-add_to t = elim (Option-cases (get m u)) [
    | inl fresh ↦ ground (
      arith,
      get-put m u (record { used = add64 (pos 0) t; reset_at = reset now }) u,
      text_eq_refl u,
      forward now,
    )
    | inr (c, found) ↦ ground (
      arith,
      get-put m u (record { used = add64 (pos 0) t; reset_at = reset now }) u,
      get-put m u (record c { used = add64 c.used t }) u,
      text_eq_refl u,
      forward now,
    )
  ]

  -- It touches no other user's counter, at any instant.
  pub get_from-add_to_ne :
      (v : Text) (t : ℤ) (later : Instant)
      → u ≢ v
      → get_from later (add_to reset now m u t) v ≡ get_from later m v
  unfolding get_from add_to
  get_from-add_to_ne v t later ne = ap (shown later) (get-put_ne m u _ v ne)

-- The user's counter once the additions of a window have been made, in their order.
abbrev pub add_all :
    (Instant → Instant) → Text → List (Instant × ℤ) → Dict MemoryCounter → Dict MemoryCounter
add_all reset u [] m = m
add_all reset u ((now, t) ∷ adds) m = add_all reset u adds (add_to reset now m u t)

abbrev pub sum_from : ℤ → List (Instant × ℤ) → ℤ
sum_from n [] = n
sum_from n ((now, t) ∷ adds) = sum_from (add64 n t) adds

add_all-get :
    (reset : Instant → Instant) (u : Text) (adds : List (Instant × ℤ)) (m : Dict MemoryCounter)
    (c : MemoryCounter)
    → get m u ≡ some c
    → All (λ a. after a.0 c.reset_at ≡ false) adds
    → get (add_all reset u adds m) u ≡ some (record c { used = sum_from c.used adds })
add_all-get reset u [] m c found h = found
add_all-get reset u ((now, t) ∷ adds) m c found h =
    let added = record c { used = add64 c.used t } in
    add_all-get reset u adds (add_to reset now m u t) added
      (unfold add_to in ground (arith, get-put m u added u, text_eq_refl u)) h.1

-- A window counts every addition: as long as the reset time of a user's counter has not passed at
-- any of the additions, the counter shows what it held and all that was added until that time, and
-- 0 once it has passed.
pub window_counts :
    (reset : Instant → Instant) (u : Text) (adds : List (Instant × ℤ)) (m : Dict MemoryCounter)
    (c : MemoryCounter) (later : Instant)
    → get m u ≡ some c
    → All (λ a. after a.0 c.reset_at ≡ false) adds
    → get_from later (add_all reset u adds m) u
      ≡ (if after later c.reset_at then pos 0 else sum_from c.used adds)
unfolding get_from
window_counts reset u adds m c later found h =
    ap (shown later) (add_all-get reset u adds m c found h)
