-- ===== src/SortingUtils/Counting.antt =====
-- include/graph_canon/sorting_utils.hpp: counting_sorter. As in partition_range an iterator is an index
-- and `read s i` is `*i` in the state `s`; `put i v s` is `putter(i, v)`.
pub mod Sums
pub mod Buckets
pub mod State
pub mod Cycles
pub mod Filled
pub mod Sorted
use graph_canon.Base.{
  ℕ, zero, suc, ◌+◌, ◌-◌, Option, none, some, ◌>>=◌, Array, update, ◌==◌, if◌then◌else◌,
}
use graph_canon.Base.Loops.{for_up}

-- `std::partial_sum` on an array of `max` entries, in place.
unfoldable pub partial_sum : ℕ → Array → Array
unfolding for_up
partial_sum max e = for_up (λ i t. update t i (t (i - 1) + t i)) 1 (max - 1) e

-- `start`, the ends moved by one.
abbrev pub starts : Array → Array
starts e i = if i == 0 then 0 else e (i - 1)

module _ {ℓ} {S : Type ℓ} (read : S → ℕ → ℕ) (put : ℕ → ℕ → S → S) (to_value : ℕ → ℕ) where
  -- `end` after the loop that counts the values of the `n` elements from `first` on.
  unfoldable pub count_values : ℕ → ℕ → S → Array
  unfolding for_up
  count_values first n s =
      for_up
        (λ i e. update e (to_value (read s (first + i))) (e (to_value (read s (first + i))) + 1)) 0
        n (λ i. 0)

  -- The inner loop from its first round on; it returns `elem`, `start` and the state. `none` is the
  -- lack of fuel.
  unfoldable pub shift_cycle : ℕ → ℕ → ℕ → ℕ → Array → S → Option (ℕ × Array × S)
  shift_cycle first bucket zero elem start s = none
  shift_cycle first bucket (suc fuel) elem start s =
      let elem_bucket = to_value elem in
      let next_loc = first + start elem_bucket in
      let next_elem = read s next_loc in
      let t = put next_loc elem s in
      let start' = update start elem_bucket (start elem_bucket + 1) in
      let rest = shift_cycle first bucket fuel next_elem start' t in
      if to_value next_elem == bucket then some (next_elem, start', t) else rest

  -- The loop over the rest of a bucket, from the position `place` relative to `first`.
  unfoldable pub fill_bucket : ℕ → ℕ → ℕ → ℕ → ℕ → Array → S → Option (Array × S)
  unfolding shift_cycle
  fill_bucket first fuel bucket zero place start s = some (start, s)
  fill_bucket first fuel bucket (suc rounds) place start s =
      let next = fill_bucket first fuel bucket rounds (place + 1) in
      let elem = read s (first + place) in
      let shifted = shift_cycle first bucket fuel elem start s >>= λ (elem', start', t).
      next start' (put (first + place) elem' t) in
      if to_value elem == bucket then next start s else shifted

  -- The loop over the buckets, with the ends of the buckets in `e`.
  unfoldable pub fill_buckets : ℕ → ℕ → Array → ℕ → ℕ → Array → S → Option S
  unfolding fill_bucket
  fill_buckets first fuel e zero bucket start s = some s
  fill_buckets first fuel e (suc rounds) bucket start s =
      fill_bucket first fuel bucket (e bucket - start bucket) (start bucket) start s
      >>= λ (start', t). fill_buckets first fuel e rounds (bucket + 1) start' t

  -- The sorter for `max` values on the range from `first` to `last`: what `callback` is given, and the
  -- sorted range. A cycle has at most as many rounds as the range has elements.
  unfoldable pub counting_sort : ℕ → ℕ → ℕ → S → Option (Array × S)
  unfolding count_values partial_sum fill_buckets
  counting_sort max first last s =
      let e = partial_sum max (count_values first (last - first) s) in
      fill_buckets first (last - first) e max 0 (starts e) s >>= λ t. some (e, t)
