-- ===== src/Native/Vme/Lists.antt =====
-- The list of an address space, and what it maps.
use nexus_am_ame.Base.{
  ℕ, zero, suc, ◌+◌, ◌≤◌, ◌<◌, ◌≡◌, ◌≢◌, arith, refl, false, ◌==◌, if◌then◌else◌, Option, some,
  none, List, [], ◌∷◌, length,
}
use nexus_am_ame.Native.Vme.{PageMap, mmap_prot, offset, find_map}

-- The nodes from `p` on, up to NULL.
abbrev pub Chain : (ℕ → PageMap) → ℕ → List ℕ → Type 0
Chain nodes p [] = p ≡ 0
Chain nodes p (x ∷ xs) = (p ≡ x) × (x ≢ 0) × Chain nodes (nodes x).next xs

abbrev pub times : ℕ → List ℕ → ℕ
times a [] = 0
times a (x ∷ xs) = (if a == x then 1 else 0) + times a xs

-- How often an address is in the nodes.
abbrev pub count_va : (ℕ → PageMap) → ℕ → List ℕ → ℕ
count_va nodes a [] = 0
count_va nodes a (x ∷ xs) = (if a == (nodes x).va then 1 else 0) + count_va nodes a xs

-- Where a node maps its address: the protection and the place in the memory of the program.
abbrev pub place : PageMap → ℕ × ℕ
place m = (mmap_prot m.prot, offset m.pa)

-- What the list says of an address.
abbrev pub lookup : (ℕ → PageMap) → List ℕ → ℕ → Option (ℕ × ℕ)
lookup nodes [] a = none
lookup nodes (x ∷ xs) a = if a == (nodes x).va then some (place (nodes x)) else lookup nodes xs a

-- Two stores agree on the nodes of a list.
abbrev pub Same : (ℕ → PageMap) → (ℕ → PageMap) → List ℕ → Type 0
Same nodes nodes' xs = (a : ℕ) → 1 ≤ times a xs → nodes' a ≡ nodes a

self_times : (x : ℕ) (xs : List ℕ) → 1 ≤ times x (x ∷ xs)
self_times x xs = ground arith

pub Same-tail :
    (nodes nodes' : ℕ → PageMap) (x : ℕ) (xs : List ℕ)
    → Same nodes nodes' (x ∷ xs)
    → Same nodes nodes' xs
Same-tail nodes nodes' x xs same a h = same a (ground (arith, h))

pub Same-head :
    (nodes nodes' : ℕ → PageMap) (x : ℕ) (xs : List ℕ)
    → Same nodes nodes' (x ∷ xs)
    → nodes' x ≡ nodes x
Same-head nodes nodes' x xs same = same x (self_times x xs)

pub Chain-Same :
    (nodes nodes' : ℕ → PageMap) (p : ℕ) (xs : List ℕ)
    → Same nodes nodes' xs
    → Chain nodes p xs
    → Chain nodes' p xs
Chain-Same nodes nodes' p [] same c = c
Chain-Same nodes nodes' p (x ∷ xs) same (e, nz, rest) = (
  e,
  nz,
  rw (Same-head nodes nodes' x xs same)
      (Chain-Same nodes nodes' (nodes x).next xs (Same-tail nodes nodes' x xs same) rest),
)

pub lookup-Same :
    (nodes nodes' : ℕ → PageMap) (xs : List ℕ) (a : ℕ)
    → Same nodes nodes' xs
    → lookup nodes' xs a ≡ lookup nodes xs a
lookup-Same nodes nodes' [] a same = refl
lookup-Same nodes nodes' (x ∷ xs) a same =
    rw
      (
        Same-head nodes nodes' x xs same,
        lookup-Same nodes nodes' xs a (Same-tail nodes nodes' x xs same),
      )
      refl

pub count_va-Same :
    (nodes nodes' : ℕ → PageMap) (xs : List ℕ) (a : ℕ)
    → Same nodes nodes' xs
    → count_va nodes' a xs ≡ count_va nodes a xs
count_va-Same nodes nodes' [] a same = refl
count_va-Same nodes nodes' (x ∷ xs) a same =
    rw
      (
        Same-head nodes nodes' x xs same,
        count_va-Same nodes nodes' xs a (Same-tail nodes nodes' x xs same),
      )
      refl

-- The search for an address that is not in the list.
pub find_map-absent :
    (n va p : ℕ) (nodes : ℕ → PageMap) (xs : List ℕ)
    → length xs < n
    → Chain nodes p xs
    → count_va nodes va xs ≡ 0
    → find_map n va p nodes ≡ some 0
unfolding find_map
find_map-absent zero va p nodes xs short c absent = absurd (omega (arith, short))
find_map-absent (suc n) va p nodes [] short c absent = rw c refl
find_map-absent (suc n) va p nodes (x ∷ xs) short (e, nz, rest) absent =
    let some_x : (x == 0) ≡ false = ground (arith, nz) in
    let other : ((nodes x).va == va) ≡ false = ground (arith, absent) in
    rw (e, some_x, other)
      (find_map-absent n va (nodes x).next nodes xs (omega (arith, short)) rest
        (ground (arith, absent)))
