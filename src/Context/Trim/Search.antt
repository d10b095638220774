-- ===== src/Context/Trim/Search.antt =====
-- The binary search for the number of characters that are kept.
use helve.Base.{
  ℕ, zero, suc, ◌+◌, ◌-◌, ◌/◌, ◌≤◌, ◌<◌, ◌≡◌, ◌⊎◌, inl, inr, refl, true, false, arith, ltb, leb,
  Bool-cases, ◌∙◌, sym,
}
use helve.Context.Trim.{search}

module _ (cost : ℕ → ℕ) (budget : ℕ) where
  search_done :
      (rounds low above best : ℕ) → above ≤ low → search cost budget rounds low above best ≡ best
  unfolding search
  search_done zero low above best h = refl
  search_done (suc rounds) low above best h = ground arith

  search_fits_step :
      (rounds low above best : ℕ)
      → low < above
      → cost ((low + above - 1) / 2) ≤ budget
      → search cost budget (suc rounds) low above best
        ≡ search cost budget rounds ((low + above - 1) / 2 + 1) above ((low + above - 1) / 2)
  unfolding search
  search_fits_step rounds low above best h fits =
      let a : ltb low above ≡ true = ground arith in
      let b : leb (cost ((low + above - 1) / 2)) budget ≡ true = ground (arith, fits) in
      rw (a, b) refl

  search_large_step :
      (rounds low above best : ℕ)
      → low < above
      → leb (cost ((low + above - 1) / 2)) budget ≡ false
      → search cost budget (suc rounds) low above best
        ≡ search cost budget rounds low ((low + above - 1) / 2) best
  unfolding search
  search_large_step rounds low above best h large =
      let a : ltb low above ≡ true = ground arith in rw (a, large) refl

  -- Rounds for each value between the bounds are enough: more of them change nothing.
  pub search_rounds :
      (rounds more low above best : ℕ)
      → above - low ≤ rounds
      → above - low ≤ more
      → search cost budget more low above best ≡ search cost budget rounds low above best
  search_rounds zero more low above best h k =
      search_done more low above best (omega arith)
      ∙ sym (search_done zero low above best (omega arith))
  search_rounds (suc rounds) zero low above best h k =
      search_done zero low above best (omega arith)
      ∙ sym (search_done (suc rounds) low above best (omega arith))
  search_rounds (suc rounds) (suc more) low above best h k = elim (Bool-cases (ltb low above)) [
    | inr done ↦
        search_done (suc more) low above best (ground (arith, done))
        ∙ sym (search_done (suc rounds) low above best (ground (arith, done)))
    | inl going ↦
        let less : low < above = ground (arith, going) in
        elim (Bool-cases (leb (cost ((low + above - 1) / 2)) budget)) [
          | inl fits ↦
              search_fits_step more low above best less (ground (arith, fits))
              ∙ search_rounds rounds more ((low + above - 1) / 2 + 1) above ((low + above - 1) / 2)
                  (omega (arith, less, h)) (omega (arith, less, k))
              ∙ sym (search_fits_step rounds low above best less (ground (arith, fits)))
          | inr large ↦
              search_large_step more low above best less large
              ∙ search_rounds rounds more low ((low + above - 1) / 2) best (omega (arith, less, h))
                  (omega (arith, less, k))
              ∙ sym (search_large_step rounds low above best less large)
        ]
  ]

  -- The number found is the one at hand, or one that is within the bounds and fits.
  pub search_fits :
      (rounds low above best : ℕ)
      → let found = search cost budget rounds low above best in
        (found ≡ best) ⊎ ((low ≤ found) × (found < above) × (cost found ≤ budget))
  unfolding search
  search_fits zero low above best = inl refl
  search_fits (suc rounds) low above best = elim (Bool-cases (ltb low above)) [
    | inr done ↦ rw done (inl refl)
    | inl going ↦
        let less : low < above = ground (arith, going) in
        elim (Bool-cases (leb (cost ((low + above - 1) / 2)) budget)) [
          | inl fits ↦
              rw (going, fits)
                (inr
                  (elim (search_fits rounds ((low + above - 1) / 2 + 1) above
                    ((low + above - 1) / 2)) [
                      | inl e ↦
                          rw e (omega (arith, less), omega (arith, less), ground (arith, fits))
                      | inr (a, b, c) ↦ (omega (arith, less, a), b, c)
                    ]))
          | inr large ↦
              rw (going, large)
                (elim (search_fits rounds low ((low + above - 1) / 2) best) [
                  | inl e ↦ inl e
                  | inr (a, b, c) ↦ inr (a, omega (arith, less, b), c)
                ])
        ]
  ]
