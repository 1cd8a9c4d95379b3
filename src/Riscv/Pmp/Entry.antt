-- ===== src/Riscv/Pmp/Entry.antt =====
-- What enable_pmp and enable_pmp_TOR make of an entry whose configuration byte is 0.
use native.Mathlib.Nat.{
  one-le-pow, pow-le-pow_right, mul-le-mul_right, mod_self, mod-lt, div-add-mod', div-eq_of_lt-le,
}
use native.Mathlib.Numerals.{towards_suc}
use nexus_am_ame.Base.{◌↔◌, ℕ, ◌+◌, ◌-◌, ◌*◌, ◌/◌, ◌%◌, ◌^◌, ◌≤◌, ◌<◌, ◌≡◌, arith, refl, ◌∙◌, ap}
use nexus_am_ame.Base.{
  Bool, true, false, leb, ◌==◌, ==_iff, eq→==, if◌then◌else◌, bit_and, bit_or, some, lt→ltb, leb→le,
}
use nexus_am_ame.Base.{holds_upto, holds_upto-at, bit_and_low, bit_or_disjoint, bit_or_free}
use nexus_am_ame.Riscv.Pmp.{
  Csrs, pmpaddr_base, pmpcfg_base, cfg_offset, set_cfg, csr_set_num, csr_write_num, napot_addr,
  enable_pmp,
}

abbrev pub cfg_reg : ℕ → ℕ
cfg_reg reg = pmpcfg_base + cfg_offset reg

-- The factor of entry `reg` in its configuration register.
abbrev pub cfg_unit : ℕ → ℕ
cfg_unit reg = 2 ^ (reg % 8 * 8)

abbrev pub cfg_byte : ℕ → Csrs → ℕ
cfg_byte reg r = r (cfg_reg reg) / cfg_unit reg % 2 ^ 8

-- L, then A, then XWR.
abbrev pub content : ℕ → ℕ → ℕ → ℕ
content lock mode permission = lock * 128 + mode * 8 + permission

abbrev pub or_content : ℕ → ℕ → ℕ → ℕ
or_content lock mode permission = bit_or (bit_or permission (lock * 2 ^ 7)) (mode * 2 ^ 3)

abbrev agrees : ℕ → ℕ → ℕ → Bool
agrees lock mode permission = or_content lock mode permission == content lock mode permission

content_table : holds_upto (λ l. holds_upto (λ a. holds_upto (agrees l a) 8) 4) 2 ≡ true
unfolding holds_upto
content_table = refl

pub or_content_lem :
    (lock mode permission : ℕ)
    → lock < 2
    → mode < 4
    → permission < 8
    → or_content lock mode permission ≡ content lock mode permission
or_content_lem l a p hl ha hp =
    let by_lock =
      holds_upto-at (λ l. holds_upto (λ a. holds_upto (agrees l a) 8) 4) 2 content_table l hl in
    let by_mode = holds_upto-at (λ a. holds_upto (agrees l a) 8) 4 by_lock a ha in
    (==_iff (or_content l a p) (content l a p)).0 (holds_upto-at (agrees l a) 8 by_mode p hp)

unit_table : holds_upto (λ s. leb (2 ^ (s * 8)) (2 ^ 56)) 8 ≡ true
unfolding holds_upto
unit_table = refl

unit-le : (s : ℕ) → s < 8 → 2 ^ (s * 8) ≤ 2 ^ 56
unit-le s h = leb→le _ _ (holds_upto-at (λ s. leb (2 ^ (s * 8)) (2 ^ 56)) 8 unit_table s h)

scaled-lt : (c u : ℕ) → c < 2 ^ 8 → u ≤ 2 ^ 56 → c * u < 2 ^ 64
scaled-lt c u hc hu = let most : c * u ≤ 255 * u = mul-le-mul_right u (omega arith) in omega arith

-- Setting a free byte of the configuration adds it, and no carry reaches the other entries.
pub set_cfg_lem :
    (reg c n : ℕ) (r : Csrs)
    → reg < 16
    → c < 2 ^ 8
    → cfg_byte reg r ≡ 0
    → set_cfg reg c r n ≡ (if n == cfg_reg reg then r n + c * cfg_unit reg else r n)
unfolding set_cfg csr_set_num
set_cfg_lem reg c n r small hc free = ground (
  arith,
  bit_and_low 3 reg,
  scaled-lt c (cfg_unit reg) hc (unit-le (reg % 8) (omega arith)),
  bit_or_free (reg % 8 * 8) 8 (r (cfg_reg reg)) c hc free,
)

-- The fields of a page number are multiplied out at these exponents.
two_pow :
    (k : ℕ) → (2 ^ (k + 3) ≡ 8 * 2 ^ k) × (2 ^ (k + 2) ≡ 4 * 2 ^ k) × (2 ^ (k + 1) ≡ 2 * 2 ^ k)
two_pow k =
    (simp towards_suc (omega arith), simp towards_suc (omega arith), simp towards_suc (omega arith))

-- The test of enable_pmp accepts a power of two.
power_of_two : (k : ℕ) → k < 64 → bit_and (2 ^ k) ((2 ^ k + 2 ^ 64 - 1) % 2 ^ 64) ≡ 0
power_of_two k h = rw minus_one (bit_and_low k (2 ^ k) ∙ mod_self (2 ^ k))
  where
    minus_one : (2 ^ k + 2 ^ 64 - 1) % 2 ^ 64 ≡ 2 ^ k - 1
    minus_one = omega (
      arith,
      one-le-pow k 2 (omega arith),
      pow-le-pow_right {n = 2} (omega arith) {i = k} {j = 63} (omega arith),
    )

-- The address of an aligned region, with the size coded in the ones at its end.
napot_addr_lem :
    (k q : ℕ)
    → k + 3 < 64
    → napot_addr (q * 2 ^ (k + 3)) (2 ^ (k + 3)) / 2 ^ 2 ≡ q * 2 ^ (k + 1) + (2 ^ k - 1)
napot_addr_lem k q h =
    let (eight, four, twice) = two_pow k in
    let pos = one-le-pow k 2 (omega arith) in
    let bound = pow-le-pow_right {n = 2} (omega arith) {i = k + 3} {j = 63} (omega arith) in
    let ones : (2 ^ (k + 3) / 2 + 2 ^ 64 - 1) % 2 ^ 64 ≡ 4 * 2 ^ k - 1 = omega arith in
    rw (ones, bit_or_disjoint (k + 3) q (4 * 2 ^ k - 1) (omega arith))
      (omega (arith, ap (λ (t : ℕ). q * t) eight, ap (λ (t : ℕ). q * t) twice))

-- The registers with the code of a region in the address register.
coded : ℕ → ℕ → ℕ → Csrs → Csrs
coded reg k q r = csr_write_num (pmpaddr_base + reg) (q * 2 ^ (k + 1) + (2 ^ k - 1)) r

enable_pmp-napot :
    (reg k q lock permission : ℕ) (r : Csrs)
    → reg < 16
    → k + 3 < 64
    → lock < 2
    → permission < 8
    → enable_pmp reg (q * 2 ^ (k + 3)) (2 ^ (k + 3)) lock permission r
      ≡ some (set_cfg reg (content lock 3 permission) (coded reg k q r))
unfolding enable_pmp coded
enable_pmp-napot reg k q lock permission r small fits hl hp =
    rw (eq→== _ 0 (power_of_two (k + 3) fits), lt→ltb reg 16 small)
      (rw (not_four, napot_addr_lem k q fits, or_content_lem lock 3 permission hl (omega arith) hp)
        refl)
  where
    not_four : (2 ^ (k + 3) == 4) ≡ false
    not_four = ground (arith, two_pow k, one-le-pow k 2)

entry_at :
    (reg k q c : ℕ) (r : Csrs)
    → reg < 16
    → c < 2 ^ 8
    → cfg_byte reg r ≡ 0
    → (n : ℕ)
    → set_cfg reg c (coded reg k q r) n ≡ (
        if n == pmpaddr_base + reg
        then q * 2 ^ (k + 1) + (2 ^ k - 1)
        else (if n == cfg_reg reg then r n + c * cfg_unit reg else r n))
unfolding coded csr_write_num
entry_at reg k q c r small hc free n = ground (
  arith,
  set_cfg_lem reg c n (csr_write_num (pmpaddr_base + reg) (q * 2 ^ (k + 1) + (2 ^ k - 1)) r),
)

same_block : (x size q : ℕ) → 0 < size → (x / size ≡ q) ↔ ((q * size ≤ x) × (x < q * size + size))
same_block x size q pos = (
  λ e. omega (arith, div-add-mod' x size, mod-lt x pos, ap (λ (t : ℕ). t * size) e),
  λ h. div-eq_of_lt-le size h.0 (omega (arith, h.1)),
)

-- For an entry `reg` below 16 that is not in use, so that its configuration byte is 0, a lock bit, three permission bits and a region of 2 ^ (k + 3) bytes aligned
-- to its size: enable_pmp accepts it, puts the NAPOT code of the region in the address
-- register, adds the configuration byte at its place, and changes no other register. An
-- address lies in the region exactly when it agrees with the code above its trailing ones.
pub enable_pmp_lem :
    (reg k q lock permission : ℕ) (r : Csrs)
    → reg < 16
    → k + 3 < 64
    → lock < 2
    → permission < 8
    → cfg_byte reg r ≡ 0
    → let base = q * 2 ^ (k + 3) in
      (r' : Csrs) × (enable_pmp reg base (2 ^ (k + 3)) lock permission r ≡ some r')
      × ((n : ℕ)
          → r' n ≡ (
              if n == pmpaddr_base + reg
              then q * 2 ^ (k + 1) + (2 ^ k - 1)
              else (if n == cfg_reg reg
                  then r n + content lock 3 permission * cfg_unit reg
                  else r n)))
      × ((x : ℕ) → (x / 2 ^ (k + 3) ≡ q) ↔ ((base ≤ x) × (x < base + 2 ^ (k + 3))))
enable_pmp_lem reg k q lock permission r small fits hl hp free = (
  set_cfg reg (content lock 3 permission) (coded reg k q r),
  enable_pmp-napot reg k q lock permission r small fits hl hp,
  entry_at reg k q (content lock 3 permission) r small (omega arith) free,
  λ x. same_block x (2 ^ (k + 3)) q (one-le-pow (k + 3) 2 (omega arith)),
)
