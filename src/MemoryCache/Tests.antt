-- ===== src/MemoryCache/Tests.antt =====
-- memory_cache.c: a run on a concrete cache.
use datastor_qos.Base.{◌≤◌, ◌≡◌, refl, List, [], ◌∷◌, arith}
use datastor_qos.MemoryCache.{init}
use datastor_qos.MemoryCache.Counting.{
  Event, reserves, gives_up, returns_unit, IsValid, live, run, count, run-count, init-IsValid,
}

-- Three reservations where two units are left, then two units come back.
abbrev events : List Event
events = reserves ∷ reserves ∷ reserves ∷ returns_unit ∷ gives_up ∷ []

run-count_example : IsValid (run (init 16 2) events) × (live (run (init 16 2) events) ≡ 0) × (0 ≤ 2)
unfolding init
run-count_example =
    run-count (init 16 2) events 0 (init-IsValid 16 2 (omega arith)) (unfold init count in refl)
