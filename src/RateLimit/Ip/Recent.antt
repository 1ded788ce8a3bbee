-- ===== src/RateLimit/Ip/Recent.antt =====
-- The events that the map of addresses keeps after a check.
use arguss.Base.{
  ℕ, suc, ◌+◌, ◌<◌, ◌≡◌, refl, sym, subst, false, Option, none, some, List, [], ◌∷◌, leb, leb→le,
  Member, Member-append_right, if◌then◌else◌, length, Text, arith, Bool-cases, inl, inr,
}
use arguss.RateLimit.Window.{Events, expired, prune, put_cases}
use arguss.RateLimit.Ip.{ip_window, is_stale, keep_fresh, drop_stale, check_and_count}
use arguss.RateLimit.Ip.Retry.{check_full, check_room, pruned_events}

-- The entries that a check leaves hold an event of the last 60 seconds.
abbrev pub HasRecent : ℕ → Option (List ℕ) → Type 0
HasRecent now none = Unit
HasRecent now (some es) = (e : ℕ) × Member e es × (now < e + ip_window)

fresh-HasRecent : (now : ℕ) (es : List ℕ) → is_stale now es ≡ false → HasRecent now (some es)
unfolding is_stale
fresh-HasRecent now [] f = cc
fresh-HasRecent now (e ∷ []) f = (e, inl refl, ground arith)
fresh-HasRecent now (e ∷ g ∷ es) f = let r = fresh-HasRecent now (g ∷ es) f in (r.0, inr r.1, r.2)

drop_stale-HasRecent : (now : ℕ) (m : Events) (j : Text) → HasRecent now (drop_stale now m j)
unfolding drop_stale
drop_stale-HasRecent now m j = of_entry (m j)
  where
    of_entry : (o : Option (List ℕ)) → HasRecent now (keep_fresh now o)
    of_entry none = tt
    of_entry (some es) = elim (Bool-cases (is_stale now es)) [
      | inl s ↦ rw s tt
      | inr f ↦ rw f (fresh-HasRecent now es f)
    ]

pruned-HasRecent :
    (now : ℕ) (es : List ℕ)
    → 0 < length (prune ip_window now es)
    → HasRecent now (some (prune ip_window now es))
unfolding prune
pruned-HasRecent now [] h = absurd (omega arith)
pruned-HasRecent now (e ∷ es) h = elim (Bool-cases (expired ip_window now e)) [
  | inl x ↦
      subst
        (λ b.
          0 < length (if b then prune ip_window now es else e ∷ es)
          → HasRecent now (some (if b then prune ip_window now es else e ∷ es)))
        (sym x) (pruned-HasRecent now es) h
  | inr a ↦
      subst (λ b. HasRecent now (some (if b then prune ip_window now es else e ∷ es))) (sym a)
        (e, inl refl, ground arith)
]

-- After a check under a limit that is not 0, every address in the map has an event of the last 60
-- seconds: silent addresses are forgotten.
pub check-HasRecent :
    (l : ℕ) (ip : Text) (now : ℕ) (m : Events) (j : Text)
    → HasRecent now ((check_and_count ip (suc l) now m).1 j)
check-HasRecent l ip now m j = elim (Bool-cases (leb (suc l) (length (pruned_events ip now m)))) [
  | inl full ↦ rw (check_full l ip now m (leb→le _ _ full)) (
      put_cases ip _ (drop_stale now m) (λ _ o. HasRecent now o)
        (pruned-HasRecent now _ (omega (arith, leb→le _ _ full)))
        (λ i n. drop_stale-HasRecent now m i) j)
  | inr room ↦ rw (check_room l ip now m (ground arith)) (
      put_cases ip _ (drop_stale now m) (λ _ o. HasRecent now o)
        (now, Member-append_right _ (now ∷ []) now (inl refl), omega arith)
        (λ i n. drop_stale-HasRecent now m i) j)
]
