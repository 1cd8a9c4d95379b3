-- ===== src/Klib/Strings.antt =====
-- strlen to memcmp of libs/klib/src/string.c. A `char` is unsigned, as in the RISC-V ABI. Where
-- the C loop ends at a byte of the memory, fuel bounds its rounds.
pub mod Laws
pub mod Compare
pub mod Equal
use nexus_am_ame.Base.{ℕ, zero, suc, ◌+◌, ◌-◌, ◌%◌, ◌^◌, true, false, not, ◌&&◌}
use nexus_am_ame.Base.{Option, none, some, ltb, ◌==◌, ◌>>=◌, ℤ, sub_ℕ}
use nexus_am_ame.Klib.Memory.{Memory, write}

-- `for (; *s; s ++) sz ++;`
pub count_from : ℕ → ℕ → ℕ → Memory → Option ℕ
count_from zero s sz m = none
count_from (suc fuel) s sz m = elim (m s == 0) [
  | true ↦ some sz
  | false ↦ count_from fuel (s + 1) (sz + 1) m
]

pub strlen : ℕ → ℕ → Memory → Option ℕ
strlen fuel s m = count_from fuel s 0 m

-- The memory after the copy; the function returns its first argument.
pub strcpy : ℕ → ℕ → ℕ → Memory → Option Memory
strcpy zero dst src m = none
strcpy (suc fuel) dst src m = elim (m src == 0) [
  | true ↦ some (write m dst (m src))
  | false ↦ strcpy fuel (dst + 1) (src + 1) (write m dst (m src))
]

pub strncpy : ℕ → ℕ → ℕ → Memory → Memory
strncpy dst src zero m = m
strncpy dst src (suc n) m = strncpy (dst + 1) (src + 1) n (write m dst (m src))

-- `while (*dst != '\0') dst ++;`
pub find_end : ℕ → ℕ → Memory → Option ℕ
find_end zero dst m = none
find_end (suc fuel) dst m = elim (m dst == 0) [
  | true ↦ some dst
  | false ↦ find_end fuel (dst + 1) m
]

pub strcat : ℕ → ℕ → ℕ → Memory → Option Memory
strcat fuel dst src m = find_end fuel dst m >>= λ end. strcpy fuel end src m

pub strcmp : ℕ → ℕ → ℕ → Memory → Option ℤ
strcmp zero s1 s2 m = none
strcmp (suc fuel) s1 s2 m = elim (not (m s1 == 0) && (m s1 == m s2)) [
  | true ↦ strcmp fuel (s1 + 1) (s2 + 1) m
  | false ↦ some (sub_ℕ (m s1) (m s2))
]

-- `-- n` on a size_t.
abbrev pub dec_size : ℕ → ℕ
dec_size n = (n + 2 ^ 64 - 1) % 2 ^ 64

pub strncmp : ℕ → ℕ → ℕ → ℕ → Memory → Option ℤ
strncmp zero s1 s2 n m = none
strncmp (suc fuel) s1 s2 n m = elim (ltb 0 (dec_size n) && not (m s1 == 0) && (m s1 == m s2)) [
  | true ↦ strncmp fuel (s1 + 1) (s2 + 1) (dec_size n) m
  | false ↦ some (sub_ℕ (m s1) (m s2))
]

pub memcmp : ℕ → ℕ → ℕ → ℕ → Memory → Option ℤ
memcmp zero s1 s2 n m = none
memcmp (suc fuel) s1 s2 n m = elim (ltb 0 (dec_size n) && (m s1 == m s2)) [
  | true ↦ memcmp fuel (s1 + 1) (s2 + 1) (dec_size n) m
  | false ↦ some (sub_ℕ (m s1) (m s2))
]
