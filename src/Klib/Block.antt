-- ===== src/Klib/Block.antt =====
-- memset, memcpy and memmove of libs/klib/src/string.c.
pub mod Copied
pub mod Copy
pub mod Moves
pub mod Fill
use nexus_am_ame.Base.{ℕ, zero, suc, ◌+◌, ◌-◌, ◌*◌, ◌%◌, ◌^◌, bit_and, bit_or}
use nexus_am_ame.Base.{Bool, true, false, Option, none, some, ◌&&◌, leb, ltb, ◌==◌, if◌then◌else◌}
use nexus_am_ame.Base.{◌>>=◌}
use nexus_am_ame.Klib.Memory.{Memory, write, load, store}

abbrev pub threshold : ℕ
threshold = 32

-- The variables of memcpy: the two pointers, the bytes left, and the memory.
pub record Cursor : Type 0 where
  pub dst : ℕ
  pub src : ℕ
  pub left : ℕ
  pub mem : Memory

-- `while (n --) { *dst ++ = *src ++; }`; the bytes left are the caller's business.
pub copy_bytes : ℕ → Cursor → Cursor
copy_bytes zero c = c
copy_bytes (suc n) c =
    copy_bytes n
      (record c { dst = c.dst + 1; src = c.src + 1; mem = write c.mem c.dst (c.mem c.src) })

-- `*dstw ++ = *srcw ++;` on words of `w` bytes, `k` times.
pub copy_words : ℕ → ℕ → Cursor → Option Cursor
copy_words w zero c = some c
copy_words w (suc k) c = load w c.src c.mem >>= λ v. store w c.dst v c.mem >>= λ m.
    copy_words w k (record { dst = c.dst + w; src = c.src + w; left = c.left; mem = m })

-- `while (n >= chunk) { k word copies; n -= chunk; }`
pub copy_chunks : ℕ → ℕ → ℕ → ℕ → Cursor → Option Cursor
copy_chunks w k chunk zero c = none
copy_chunks w k chunk (suc fuel) c = elim (leb chunk c.left) [
  | true ↦
      copy_words w k c >>= λ c'. copy_chunks w k chunk fuel (record c' { left = c'.left - chunk })
  | false ↦ some c
]

-- The bytes up to the next multiple of `w`.
abbrev pub padding : ℕ → ℕ → ℕ
padding w dst = (w - dst % w) % w

-- One of the two `if (n >= threshold && is_align)` blocks: align, unrolled words, then words.
pub copy_aligned : ℕ → ℕ → Cursor → Option Cursor
copy_aligned w k c =
    let pad = padding w c.dst in
    copy_chunks w k threshold (suc c.left) (copy_bytes pad (record c { left = c.left - pad }))
    >>= λ c'. copy_chunks w 1 w (suc c'.left) c'

-- `(uintptr_t)(dst - src) % w == 0`
abbrev pub is_align : ℕ → Cursor → Bool
is_align w c = (c.dst + 2 ^ 64 - c.src) % 2 ^ 64 % w == 0

pub copy_block : ℕ → ℕ → Cursor → Option Cursor
copy_block w k c = if leb threshold c.left && is_align w c then copy_aligned w k c else some c

pub memcpy : ℕ → ℕ → ℕ → Memory → Option Memory
memcpy out from n m = copy_block 8 4 (record { dst = out; src = from; left = n; mem = m }) >>= λ c.
    copy_block 4 8 c >>= λ c'. some (copy_bytes c'.left c').mem

-- `while (n -- > 0) *--d = *--s;`
pub copy_back : ℕ → ℕ → ℕ → Memory → Memory
copy_back zero d s m = m
copy_back (suc n) d s m = copy_back n (d - 1) (s - 1) (write m (d - 1) (m (s - 1)))

pub memmove : ℕ → ℕ → ℕ → Memory → Option Memory
memmove dst src n m =
    if ltb dst (src + n) && ltb src dst
    then some (copy_back n (dst + n) (src + n) m)
    else memcpy dst src n m

-- The variables of memset.
pub record Filler : Type 0 where
  pub dst : ℕ
  pub left : ℕ
  pub mem : Memory

-- `while (n --) { *dst ++ = c; }`
pub fill_bytes : ℕ → ℕ → Filler → Filler
fill_bytes c zero f = f
fill_bytes c (suc n) f = fill_bytes c n (record f { dst = f.dst + 1; mem = write f.mem f.dst c })

pub fill_words : ℕ → ℕ → Filler → Option Filler
fill_words v zero f = some f
fill_words v (suc k) f = store 8 f.dst v f.mem >>= λ m.
    fill_words v k (record { dst = f.dst + 8; left = f.left; mem = m })

pub fill_chunks : ℕ → ℕ → ℕ → ℕ → Filler → Option Filler
fill_chunks v k chunk zero f = none
fill_chunks v k chunk (suc fuel) f = elim (leb chunk f.left) [
  | true ↦
      fill_words v k f >>= λ f'. fill_chunks v k chunk fuel (record f' { left = f'.left - chunk })
  | false ↦ some f
]

pub fill_aligned : ℕ → ℕ → Filler → Option Filler
fill_aligned c c8 f =
    let pad = padding 8 f.dst in
    fill_chunks c8 4 threshold (suc f.left) (fill_bytes c pad (record f { left = f.left - pad }))
    >>= λ f'. fill_chunks c8 1 8 (suc f'.left) f'

-- The byte repeated eight times, by the casts and shifts of the source.
pub repeat_byte : ℕ → ℕ
repeat_byte c =
    let c2 = bit_or (c * 2 ^ 8) c in
    let c4 = bit_or (c2 * 2 ^ 16 % 2 ^ 32) c2 in bit_or (c4 * 2 ^ 16 * 2 ^ 16 % 2 ^ 64) c4

-- `v` is the address and `x` the bit pattern of the `int`.
pub memset : ℕ → ℕ → ℕ → Memory → Option Memory
memset v x n m =
    let c = bit_and x 0xff in
    let start : Filler = record { dst = v; left = n; mem = m } in
    (if leb threshold n then fill_aligned c (repeat_byte c) start else some start) >>= λ f.
    some (fill_bytes c f.left f).mem
