-- ===== src/Chain/Rotation.antt =====
-- Positions in a chain of n providers: the k-th after `s`, going round, and the way back.
use vibe_local_go.Base.{ℕ, ◌+◌, ◌-◌, ◌%◌, ◌≤◌, ◌<◌, ◌≡◌, arith, ltb, leb, if◌then◌else◌}

abbrev pub position : ℕ → ℕ → ℕ → ℕ
position n s k = if ltb (s + k) n then s + k else s + k - n

-- How many steps lead from `s` to `j`.
abbrev pub distance : ℕ → ℕ → ℕ → ℕ
distance n s j = if leb s j then j - s else j + n - s

pub position-lt : (n s k : ℕ) → s < n → k ≤ n → position n s k < n
position-lt n s k hs hk = ground arith

pub mod_next : (n x : ℕ) → x < n → (x + 1) % n ≡ (if ltb (x + 1) n then x + 1 else 0)
mod_next n x h = grind arith

pub position_next : (n s k : ℕ) → s < n → k < n → (position n s k + 1) % n ≡ position n s (k + 1)
position_next n s k hs hk = ground (arith, mod_next n (position n s k))

pub position_round : (n s : ℕ) → position n s n ≡ s
position_round n s = ground arith

pub distance-lt : (n s j : ℕ) → s < n → j < n → distance n s j < n
distance-lt n s j hs hj = ground arith

pub distance-position : (n s k : ℕ) → s < n → k < n → distance n s (position n s k) ≡ k
distance-position n s k hs hk = ground arith

pub position-distance : (n s j : ℕ) → s < n → j < n → position n s (distance n s j) ≡ j
position-distance n s j hs hj = ground arith
