-- ===== src/Tests/Locks.antt =====
-- Thread 1 comes in while thread 0 has set the instance and not yet its lock.
use qsp_protocol_node.Prelude.{ℕ, ◌≤◌, ◌≡◌, refl, true, none, some, arith}
use qsp_protocol_node.Eth.Lock.{
  State, fresh, move, outside, inside, created, returned, Reach, here, next, missed, acquire,
  create, found, holds, instance_once,
}

abbrev too_early : State
too_early = record {
  place = move 1 returned (move 0 created (move 0 inside (move 0 outside fresh.place)));
  instances = 1;
  locks = 0;
  holder = some 0;
}

to_too_early : Reach too_early
to_too_early =
    next (next (next (next here (missed 0 refl refl)) (acquire 0 refl refl)) (create 0 refl refl))
      (found 1 refl (λ e. absurd (omega arith)))

instance_once_example :
    (1 ≤ 1)
    × (0 ≤ 1)
    × ((t u : ℕ) → holds (too_early.place t) ≡ true → holds (too_early.place u) ≡ true → u ≡ t)
    × ((t : ℕ) → too_early.place t ≡ returned → ◌≡◌ {A = ℕ} 1 1)
    × (too_early.holder ≡ none → ◌≡◌ {A = ℕ} 1 0)
instance_once_example = instance_once too_early to_too_early
