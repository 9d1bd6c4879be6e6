-- ===== src/Tests/RingTests.antt =====
-- The ring search on a ring of four points.
use arcus_c_client.Prelude.{ℕ, ◌≡◌, refl, some, List, [], ◌∷◌, arith}
use arcus_c_client.Ring.{ContinuumItem, lower_bound, step_back, dispatch_continuum}
use arcus_c_client.Ring.Search.{owner, dispatch_continuum-owner}

abbrev point : ℕ → ℕ → ContinuumItem
point i v = record { index = i; value = v }

abbrev ring : List ContinuumItem
ring = point 2 10 ∷ point 0 25 ∷ point 1 25 ∷ point 0 40 ∷ []

program : Unit {0}
unfolding lower_bound step_back dispatch_continuum
program = tt

-- Of two points with one value the first is taken.
dispatch_tie : dispatch_continuum ring 25 ≡ some 0
unfolding program
dispatch_tie = refl

dispatch_past_the_end : dispatch_continuum ring 41 ≡ some 2
unfolding program
dispatch_past_the_end = refl

dispatch_continuum-owner_example : dispatch_continuum ring 26 ≡ owner ring 26
dispatch_continuum-owner_example = dispatch_continuum-owner ring 26 (omega arith) (omega arith)
