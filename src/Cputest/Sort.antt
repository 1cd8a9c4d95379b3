-- ===== src/Cputest/Sort.antt =====
-- The three sorting programs: bubble-sort.c, select-sort.c and quick-sort.c. Their `N` is a
-- parameter, and `x > y` is that of an order.
pub mod Scan
pub mod Partition
pub mod Quick
pub mod Bubble
pub mod Select
use nexus_am_ame.Base.{
  ℕ, zero, suc, ◌+◌, ◌-◌, Option, some, none, ltb, leb, ◌&&◌, if◌then◌else◌, ◌>>=◌,
}
use nexus_am_ame.Arrays.{Order, put, swap}

module _ {ℓ} {A : Type ℓ} ⦃o : Order A⦄ where
  open o use {gt}

  -- The inner loop of bubble_sort, with `left` rounds to go from `i` on.
  unfoldable pub bubble_pass : ℕ → ℕ → (ℕ → A) → ℕ → A
  bubble_pass zero i a = a
  bubble_pass (suc left) i a =
      bubble_pass left (i + 1) (if gt (a i) (a (i + 1)) then swap a i (i + 1) else a)

  -- Its outer loop, from `j` on.
  unfoldable pub bubble_rounds : ℕ → ℕ → ℕ → (ℕ → A) → ℕ → A
  bubble_rounds n zero j a = a
  bubble_rounds n (suc left) j a = bubble_rounds n left (j + 1) (bubble_pass (n - 1 - j) 0 a)

  unfoldable pub bubble_sort : ℕ → (ℕ → A) → ℕ → A
  bubble_sort n a = bubble_rounds n n 0 a

  -- The inner loop of select_sort: the index of a least entry.
  unfoldable pub select_least : ℕ → ℕ → ℕ → (ℕ → A) → ℕ
  select_least zero j k a = k
  select_least (suc left) j k a = select_least left (j + 1) (if gt (a k) (a j) then j else k) a

  -- Its outer loop, from `i` on.
  unfoldable pub select_rounds : ℕ → ℕ → ℕ → (ℕ → A) → ℕ → A
  select_rounds n zero i a = a
  select_rounds n (suc left) i a =
      select_rounds n left (i + 1) (swap a i (select_least (n - (i + 1)) (i + 1) i a))

  unfoldable pub select_sort : ℕ → (ℕ → A) → ℕ → A
  select_sort n a = select_rounds n (n - 1) 0 a

  -- `while (i < j && a[j] > pivot) j --;`
  unfoldable pub scan_down : (ℕ → A) → A → ℕ → ℕ → ℕ
  scan_down a pivot i zero = zero
  scan_down a pivot i (suc j) =
      let lower = scan_down a pivot i j in
      if ltb i (suc j) && gt (a (suc j)) pivot then lower else suc j

  -- `while (i < j && a[i] <= pivot) i ++;`, with `left` = j - i.
  unfoldable pub scan_up : (ℕ → A) → A → ℕ → ℕ → ℕ
  scan_up a pivot i zero = i
  scan_up a pivot i (suc left) =
      let higher = scan_up a pivot (i + 1) left in if gt (a i) pivot then i else higher

  -- The outer loop of partition, on fuel: the array and `i` at its end.
  unfoldable pub partition_loop : ℕ → A → ℕ → ℕ → (ℕ → A) → Option (ℕ × (ℕ → A))
  partition_loop zero pivot i j a = none
  partition_loop (suc fuel) pivot i j a =
      let j' = scan_down a pivot i j in
      let a' = put a i (a j') in
      let i' = scan_up a' pivot i (j' - i) in
      let rest = partition_loop fuel pivot i' j' (put a' j' (a' i')) in
      if ltb i j then rest else some (i, a)

  unfoldable pub partition : ℕ → ℕ → (ℕ → A) → Option (ℕ × (ℕ → A))
  partition p q a = partition_loop (suc (q - p)) (a p) p q a >>= λ r. some (r.0, put r.1 r.0 (a p))

  -- `m - 1` of C is -1 for `m` = 0, and 0 here: the call returns at once in both.
  unfoldable pub quick_sort : ℕ → ℕ → ℕ → (ℕ → A) → Option (ℕ → A)
  quick_sort zero p q a = none
  quick_sort (suc fuel) p q a =
      let sorted = partition p q a >>= λ r.
      quick_sort fuel p (r.0 - 1) r.1 >>= λ b. quick_sort fuel (r.0 + 1) q b in
      if leb q p then some a else sorted
