-- ===== src/Cputest/Programs/LoadStore.antt =====
-- load-store.c of tests/cputest/tests.
use nexus_am_ame.Base.{
  ℕ, zero, suc, ◌+◌, ◌-◌, ◌*◌, ◌%◌, ◌^◌, ◌==◌, Option, some, guard, holds_upto, List, [], ◌∷◌,
  get_or,
}
use nexus_am_ame.Words.{extend, load, store}

-- The bytes of the eight halfwords.
abbrev pub mem : List ℕ
mem = 0 ∷ 0 ∷ 88 ∷ 2 ∷ 188 ∷ 74 ∷ 255 ∷ 127 ∷ 0 ∷ 128 ∷ 0 ∷ 129 ∷ 205 ∷ 171 ∷ 255 ∷ 255 ∷ []

abbrev pub lh_ans : List ℕ
lh_ans = 0 ∷ 600 ∷ 0x4abc ∷ 0x7fff ∷ 0xffff8000 ∷ 0xffff8100 ∷ 0xffffabcd ∷ 0xffffffff ∷ []

abbrev pub lhu_ans : List ℕ
lhu_ans = 0 ∷ 600 ∷ 0x4abc ∷ 0x7fff ∷ 0x8000 ∷ 0x8100 ∷ 0xabcd ∷ 0xffff ∷ []

abbrev pub sh_ans : List ℕ
sh_ans = 0xfffd ∷ 0xfff7 ∷ 0xffdf ∷ 0xff7f ∷ 0xfdff ∷ 0xf7ff ∷ 0xdfff ∷ 0x7fff ∷ []

abbrev pub lwlr_ans : List ℕ
lwlr_ans = 0xbc025800 ∷ 0x7fff4a ∷ 0xcd810080 ∷ 0xffffab ∷ []

-- The last loop, with `left` rounds to go from `i` on: `mem[i] = ~(1 << (2 * i + 1))`.
unfoldable pub store_all : ℕ → ℕ → List ℕ → Option ℕ
store_all zero i bytes = some 0
store_all (suc left) i bytes =
    let next = store 2 bytes (2 * i) ((2 ^ 32 - 1 - 2 ^ (2 * i + 1)) % 2 ^ 16) in
    guard (load 2 next (2 * i) == get_or sh_ans i 0) (store_all left (i + 1) next)

unfoldable pub main : Option ℕ
main = guard (holds_upto (λ i. extend 16 (load 2 mem (2 * i)) == get_or lh_ans i 0) 8) (
    guard (holds_upto (λ i. load 2 mem (2 * i) == get_or lhu_ans i 0) 8) (
      guard (holds_upto (λ i. load 4 mem (1 + 4 * i) == get_or lwlr_ans i 0) 3)
        (store_all 8 0 mem)))
