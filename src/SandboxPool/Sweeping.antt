-- ===== src/SandboxPool/Sweeping.antt =====
-- A sweep comes to its end, whatever goes on meanwhile.
use m_gate.Prelude.{
  Bool, List, [], is_empty, length, suc, ℕ, ◌||◌, ◌∷◌, ◌≤◌, string_eq, nat_eq, pair_eq,
}
use m_gate.SandboxPool.{Event, Pool, step, swept}

-- How often the steps are those of a sweep that looks at a worker.
abbrev pub looks : List Event → ℕ
looks [] = 0
looks (swept exited age pong ∷ es) = suc (looks es)
looks (_ ∷ es) = looks es

abbrev look : Event → ℕ
look (swept exited age pong) = 1
look _ = 0

-- At some point of the steps, their end included, no sweep has a worker left to look at.
unfoldable pub is_over : List Event → Pool → Bool
is_over [] p = is_empty p.sweeping
is_over (e ∷ es) p = let later = is_over es (step e p) in is_empty p.sweeping || later

module _ (n : ℕ) where
  -- At most so many workers are left.
  Left : Pool → Type 0
  Left p = length p.sweeping ≤ n
