-- ===== src/SortingUtils.antt =====
-- include/graph_canon/sorting_utils.hpp: partition_range. An iterator is an index, `read s i` is
-- `*i` in the state `s`, and the swapper changes the state.
pub mod Range
pub mod Counting
use graph_canon.Base.{ℕ, zero, suc, ◌+◌, ◌-◌, Option, none, some, Bool, not, ◌==◌, if◌then◌else◌}

module _ {ℓ} {S : Type ℓ} (read : S → ℕ → ℕ) (pred : ℕ → Bool) (swapper : ℕ → ℕ → S → S) where
  -- The first inner loop, from `first` with `rounds` elements up to `last`: where it stops.
  unfoldable pub skip_front : S → ℕ → ℕ → ℕ
  skip_front s first zero = first
  skip_front s first (suc rounds) =
      let rest = skip_front s (first + 1) rounds in if pred (read s first) then rest else first

  -- The second inner loop, which goes down to `first` from `first + rounds`.
  unfoldable pub skip_back : S → ℕ → ℕ → ℕ
  skip_back s first zero = first
  skip_back s first (suc rounds) =
      let rest = skip_back s first rounds in
      if not (pred (read s (first + suc rounds))) then rest else first + suc rounds

  -- The outer loop. Each round but the last takes two elements off the range; `none` is the lack of
  -- fuel.
  unfoldable pub partition_loop : ℕ → ℕ → ℕ → S → Option (ℕ × S)
  partition_loop zero first last s = none
  partition_loop (suc fuel) first last s =
      let front = skip_front s first (last - first) in
      let back = skip_back s front (last - 1 - front) in
      let rest = partition_loop fuel (front + 1) back (swapper front back s) in
      let second = if front == back then some (front, s) else rest in
      if front == last then some (front, s) else second

  unfoldable pub partition_range : ℕ → ℕ → S → Option (ℕ × S)
  unfolding partition_loop skip_front skip_back
  partition_range first last s = partition_loop (last - first + 1) first last s
