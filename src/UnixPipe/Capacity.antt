-- ===== src/UnixPipe/Capacity.antt =====
-- `increase_capacity` finds a capacity that all pipes accept, or says why not.
use cedana_image_streamer.Prelude.{
  ℕ, zero, suc, ◌+◌, ◌*◌, ◌/◌, ◌≤◌, ◌<◌, ◌≡◌, ◌≢◌, ◌⊎◌, List, [], ◌∷◌, ok, out_of_fuel, arith, All,
}
use cedana_image_streamer.UnixPipe.{Errno, done, set_capacities, increase_loop, increase_capacity}

-- All pipes accepted the capacity exactly when the pass over them answers `done`.
set_capacities-done :
    (set_capacity : ℕ → ℕ → Errno) (pipes : List ℕ) (capacity : ℕ)
    → set_capacities set_capacity pipes capacity ≡ done
    → All (λ fd. set_capacity fd capacity ≡ done) pipes
unfolding set_capacities
set_capacities-done set_capacity [] capacity e = tt
set_capacities-done set_capacity (fd ∷ fds) capacity e =
    ground (arith, set_capacities-done set_capacity fds capacity)

module _ (page_size : ℕ) (set_capacity : ℕ → ℕ → Errno) where
  increase_loop-eq-ok :
      (fuel : ℕ) (pipes : List ℕ) (capacity chosen : ℕ)
      → increase_loop page_size set_capacity fuel pipes capacity ≡ ok chosen
      → All (λ fd. set_capacity fd chosen ≡ done) pipes
        × (chosen ≤ capacity)
        × ((chosen ≡ capacity) ⊎ (page_size ≤ 2 * chosen))
  unfolding increase_loop
  increase_loop-eq-ok zero pipes capacity chosen e = cc
  increase_loop-eq-ok (suc fuel) pipes capacity chosen e = ground (
    arith,
    set_capacities-done set_capacity pipes capacity,
    increase_loop-eq-ok fuel pipes (capacity / 2) chosen,
  )

  increase_loop-ne-out_of_fuel :
      (fuel : ℕ) (pipes : List ℕ) (capacity : ℕ)
      → capacity < fuel
      → increase_loop page_size set_capacity fuel pipes capacity ≢ out_of_fuel
  unfolding increase_loop
  increase_loop-ne-out_of_fuel zero pipes capacity h = absurd (omega arith)
  increase_loop-ne-out_of_fuel (suc fuel) pipes capacity h =
      ground (arith, increase_loop-ne-out_of_fuel fuel pipes (capacity / 2))

  -- The loop ends, whatever the kernel answers.
  pub increase_capacity-ne-out_of_fuel :
      (pipes : List ℕ) (max_capacity : ℕ)
      → increase_capacity page_size set_capacity pipes max_capacity ≢ out_of_fuel
  unfolding increase_capacity
  increase_capacity-ne-out_of_fuel pipes max_capacity =
      increase_loop-ne-out_of_fuel (max_capacity + 1) pipes max_capacity (omega arith)

  -- A capacity that is returned was accepted for every pipe and is at most the one asked for; it is
  -- the one asked for, or at least half a page.
  pub increase_capacity-eq-ok :
      (pipes : List ℕ) (max_capacity chosen : ℕ)
      → increase_capacity page_size set_capacity pipes max_capacity ≡ ok chosen
      → All (λ fd. set_capacity fd chosen ≡ done) pipes
        × (chosen ≤ max_capacity)
        × ((chosen ≡ max_capacity) ⊎ (page_size ≤ 2 * chosen))
  unfolding increase_capacity
  increase_capacity-eq-ok pipes max_capacity chosen e =
      increase_loop-eq-ok (max_capacity + 1) pipes max_capacity chosen e
