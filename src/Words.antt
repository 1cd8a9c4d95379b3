-- ===== src/Words.antt =====
-- What the programs use of C: words, signed comparison and shift, bytes.
use nexus_am_ame.Base.{
  ℕ, zero, suc, ◌+◌, ◌-◌, ◌*◌, ◌/◌, ◌%◌, ◌^◌, Bool, true, false, ◌&&◌, ◌==◌, ltb, if◌then◌else◌,
  List, [], ◌∷◌, ◌++◌, get_or, set,
}

-- `<` on int, as 32-bit words.
abbrev pub int_less : ℕ → ℕ → Bool
int_less a b = ltb ((a + 2 ^ 31) % 2 ^ 32) ((b + 2 ^ 31) % 2 ^ 32)

-- A signed number of `w` bits as an int.
abbrev pub extend : ℕ → ℕ → ℕ
extend w v = if ltb v (2 ^ (w - 1)) then v else v + (2 ^ 32 - 2 ^ w)

-- `>>` on int.
abbrev pub arith_shift : ℕ → ℕ → ℕ
arith_shift v s = if ltb v (2 ^ 31) then v / 2 ^ s else 2 ^ 32 - 1 - (2 ^ 32 - 1 - v) / 2 ^ s

abbrev pub same : List ℕ → List ℕ → Bool
same [] [] = true
same [] (y ∷ ys) = false
same (x ∷ xs) [] = false
same (x ∷ xs) (y ∷ ys) = (x == y) && same xs ys

abbrev map_with : (ℕ → ℕ) → List ℕ → List ℕ
map_with f [] = []
map_with f (x ∷ xs) = f x ∷ map_with f xs

-- `f` at each pair of entries, row by row.
abbrev pub each_pair : (ℕ → ℕ → ℕ) → List ℕ → List ℕ → List ℕ
each_pair f [] ys = []
each_pair f (x ∷ xs) ys = map_with (f x) ys ++ each_pair f xs ys

-- Little-endian loads and stores of `n` bytes.
abbrev pub load : ℕ → List ℕ → ℕ → ℕ
load zero mem at = 0
load (suc n) mem at = get_or mem at 0 + 256 * load n mem (at + 1)

abbrev pub store : ℕ → List ℕ → ℕ → ℕ → List ℕ
store zero mem at v = mem
store (suc n) mem at v = store n (set mem at (v % 256)) (at + 1) (v / 256)
