-- ===== src/Riscv/Boot/Regions.antt =====
-- Which accesses the protection of __am_init_cte64 lets through, by the rules of the privileged
-- architecture for physical memory protection.
use nexus_am_ame.Base.{
  ℕ, zero, suc, ◌+◌, ◌-◌, ◌*◌, ◌/◌, ◌%◌, ◌^◌, ◌<◌, ◌≡◌, refl, arith, ◌∙◌, bit_and, Bool, true,
  false, not, ◌&&◌, ◌==◌, ltb, leb, if◌then◌else◌, Option, some, none,
}
use nexus_am_ame.Riscv.Pmp.{
  Csrs, init_pmp, fill_addrs, csr_write_num, csr_set_num, set_cfg, enable_pmp, enable_pmp_tor,
}
use nexus_am_ame.Riscv.Boot.{protect}

abbrev pub cfg_of : ℕ → Csrs → ℕ
cfg_of i r = r (0x3a0 + 2 * (i / 8)) / 2 ^ (8 * (i % 8)) % 256

abbrev pub addr_of : ℕ → Csrs → ℕ
addr_of i r = r (0x3b0 + i)

-- How many of the lowest bits are set.
abbrev trailing_ones : ℕ → ℕ → ℕ
trailing_ones zero x = 0
trailing_ones (suc fuel) x =
    let more = trailing_ones fuel (x / 2) in if x % 2 == 1 then more + 1 else 0

-- Entry `i` covers the byte at `a`: its mode is off, TOR, NA4 or NAPOT.
abbrev pub covers : ℕ → Csrs → ℕ → Bool
covers i r a =
    let mode = cfg_of i r / 8 % 4 in
    let low = if i == 0 then 0 else addr_of (i - 1) r in
    let width = trailing_ones 64 (addr_of i r) + 1 in
    if mode == 0
    then false
    else (if mode == 1
        then leb low (a / 4) && ltb (a / 4) (addr_of i r)
        else (if mode == 2
            then a / 4 == addr_of i r
            else a / 4 / 2 ^ width == addr_of i r / 2 ^ width))

-- The first entry that covers the byte decides; with none, no access is allowed. An entry that
-- grants writes and no reads is reserved, and the architecture does not say what it does: `none`.
abbrev pub permits_from : ℕ → ℕ → Csrs → ℕ → ℕ → Option Bool
permits_from zero i r perm a = some false
permits_from (suc left) i r perm a =
    let later = permits_from left (i + 1) r perm a in
    let granted = not (bit_and (cfg_of i r) perm == 0) in
    if covers i r a then (if cfg_of i r % 4 == 2 then none else some granted) else later

-- An access by the supervisor; `perm` is 1 to read, 2 to write and 4 to execute.
abbrev pub permits : Csrs → ℕ → ℕ → Option Bool
permits r perm a = permits_from 16 0 r perm a

abbrev pub from_size : ℕ → ℕ → ℕ → Bool
from_size base size a = leb base a && ltb a (base + size)

-- The outcome by the range that a byte is in: nothing is allowed in three of them, reading in one,
-- and in one it is not specified.
abbrev by_range : ℕ → Bool → Bool → Bool → Bool → Bool → Option Bool → Option Bool
by_range perm x1 x3 x5 x7 x9 rest =
    if x1
    then some false
    else (if x3
        then some false
        else (if x5
            then some (perm == 1)
            else (if x7 then none else (if x9 then some false else rest))))

-- The outcome by the address.
abbrev pub allowed : ℕ → ℕ → Option Bool
allowed perm a =
    by_range perm (from_size 0x9000_0000 0x1_0000 a) (from_size 0xb000_0000 0x1000 a)
      (from_size 0xb000_4000 0x1000 a) (from_size 0xb000_8000 0x1000 a)
      (from_size 0xb001_0000 0x1000 a) (some true)

-- The registers that the calls leave.
record Protected (r : Csrs) : Type 0 where
  cfg0 : r 0x3a0 ≡ 0xa00090008001800
  cfg2 : r 0x3a2 ≡ 0x1f00000000000800
  addr1 : r 0x3b1 ≡ 0x24001fff
  addr2 : r 0x3b2 ≡ 0x2c000000
  addr3 : r 0x3b3 ≡ 0x2c000400
  addr4 : r 0x3b4 ≡ 0x2c001000
  addr5 : r 0x3b5 ≡ 0x2c001400
  addr6 : r 0x3b6 ≡ 0x2c002000
  addr7 : r 0x3b7 ≡ 0x2c002400
  addr8 : r 0x3b8 ≡ 0x2c004000
  addr9 : r 0x3b9 ≡ 0x2c004400
  addr15 : r 0x3bf ≡ 0xffffffffffffffff

protect-Protected : (r : Csrs) → r 0x3a0 ≡ 0 → (r' : Csrs) × (protect r ≡ some r') × Protected r'
unfolding protect enable_pmp enable_pmp_tor init_pmp fill_addrs csr_write_num csr_set_num set_cfg
protect-Protected r e = (
  _,
  refl,
  record {
    cfg0 = rw e refl;
    cfg2 = refl;
    addr1 = refl;
    addr2 = refl;
    addr3 = refl;
    addr4 = refl;
    addr5 = refl;
    addr6 = refl;
    addr7 = refl;
    addr8 = refl;
    addr9 = refl;
    addr15 = refl;
  },
)

words1 : (a : ℕ) → (a / 4 / 16384 == 36864) ≡ from_size 0x9000_0000 0x1_0000 a
words1 a = ground arith

words3 :
    (a : ℕ) → (leb 0x2c000000 (a / 4) && ltb (a / 4) 0x2c000400) ≡ from_size 0xb0000000 0x1000 a
words3 a = ground arith

words5 :
    (a : ℕ) → (leb 0x2c001000 (a / 4) && ltb (a / 4) 0x2c001400) ≡ from_size 0xb0004000 0x1000 a
words5 a = ground arith

words7 :
    (a : ℕ) → (leb 0x2c002000 (a / 4) && ltb (a / 4) 0x2c002400) ≡ from_size 0xb0008000 0x1000 a
words7 a = ground arith

words9 :
    (a : ℕ) → (leb 0x2c004000 (a / 4) && ltb (a / 4) 0x2c004400) ≡ from_size 0xb0010000 0x1000 a
words9 a = ground arith

words15 : (a : ℕ) → a < 2 ^ 56 → (a / 4 / 36893488147419103232 == 0) ≡ true
words15 a small = ground arith

by_words : ℕ → ℕ → Option Bool
by_words perm a =
    by_range perm (a / 4 / 16384 == 36864) (leb 0x2c000000 (a / 4) && ltb (a / 4) 0x2c000400)
      (leb 0x2c001000 (a / 4) && ltb (a / 4) 0x2c001400)
      (leb 0x2c002000 (a / 4) && ltb (a / 4) 0x2c002400)
      (leb 0x2c004000 (a / 4) && ltb (a / 4) 0x2c004400)
      (if a / 4 / 36893488147419103232 == 0 then some true else some false)

by_words-allowed : (perm a : ℕ) → a < 2 ^ 56 → by_words perm a ≡ allowed perm a
unfolding by_words
by_words-allowed perm a small =
    simp (words1 a, words3 a, words5 a, words7 a, words9 a, words15 a small) refl

module _ (r : Csrs) (a : ℕ) (p : Protected r) where
  protected_reads : permits r 1 a ≡ by_words 1 a
  unfolding by_words
  protected_reads =
      rw
        (
          p.cfg0, p.cfg2, p.addr1, p.addr2, p.addr3, p.addr4, p.addr5, p.addr6, p.addr7, p.addr8,
          p.addr9, p.addr15,
        )
        refl

  protected_writes : permits r 2 a ≡ by_words 2 a
  unfolding by_words
  protected_writes =
      rw
        (
          p.cfg0, p.cfg2, p.addr1, p.addr2, p.addr3, p.addr4, p.addr5, p.addr6, p.addr7, p.addr8,
          p.addr9, p.addr15,
        )
        refl

  protected_fetches : permits r 4 a ≡ by_words 4 a
  unfolding by_words
  protected_fetches =
      rw
        (
          p.cfg0, p.cfg2, p.addr1, p.addr2, p.addr3, p.addr4, p.addr5, p.addr6, p.addr7, p.addr8,
          p.addr9, p.addr15,
        )
        refl

-- Where pmpcfg0 is 0 at first, no assertion of the set-up of the protection fails, and after it the
-- supervisor may not read, write or execute in the 64 KiB from 0x90000000 and the 4 KiB from
-- 0xb0000000 and 0xb0010000, may only read in the 4 KiB from 0xb0004000, and may do all three at every
-- other byte of 56-bit physical addresses, but for the 4 KiB from 0xb0008000: there the entry that
-- decides grants writes and no reads, which the architecture reserves.
pub protect_lem :
    (r : Csrs)
    → r 0x3a0 ≡ 0
    → (r' : Csrs) × (protect r ≡ some r')
      × ((a : ℕ)
          → a < 2 ^ 56
          → (permits r' 1 a ≡ allowed 1 a)
            × (permits r' 2 a ≡ allowed 2 a)
            × (permits r' 4 a ≡ allowed 4 a))
protect_lem r e =
    let (r', runs, p) = protect-Protected r e in
    (
      r',
      runs,
      λ a small. (
        protected_reads r' a p ∙ by_words-allowed 1 a small,
        protected_writes r' a p ∙ by_words-allowed 2 a small,
        protected_fetches r' a p ∙ by_words-allowed 4 a small,
      ),
    )
