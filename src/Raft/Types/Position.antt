-- ===== src/Raft/Types/Position.antt =====
-- Where a Python slice bound that is a difference falls in a list.
use distributed_key_value_ca.Prelude.{ℕ, ◌-◌, ◌≤◌, ◌≡◌, arith, leb, if◌then◌else◌}

-- The bound `a - b` in a list of `size` elements: a negative one counts from the end.
unfoldable pub position : ℕ → ℕ → ℕ → ℕ
position size a b = if leb b a then a - b else size - (b - a)

pub position-sub : (size a b : ℕ) → b ≤ a → position size a b ≡ a - b
unfolding position
position-sub size a b h = ground arith
