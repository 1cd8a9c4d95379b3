-- ===== src/Klib/Strings/Laws.antt =====
-- What the string functions promise of NUL-terminated strings, and the two comparisons of blocks.
use nexus_am_ame.Base.{ℕ, zero, suc, ◌+◌, ◌-◌, ◌≤◌, ◌<◌, ◌≡◌, ◌≢◌, sym, ◌∙◌, ap, subst, arith}
use nexus_am_ame.Base.{fun_ext, some, ◌⊎◌}
use nexus_am_ame.Klib.Memory.{Memory, write}
use nexus_am_ame.Klib.Block.Copied.{copied, IsForward}
use nexus_am_ame.Klib.Strings.{count_from, strlen, strcpy, strncpy, find_end, strcat}

-- The `k` bytes from `s` are not 0, and a 0 follows.
abbrev pub IsString : Memory → ℕ → ℕ → Type 0
IsString m s zero = m s ≡ 0
IsString m s (suc k) = (m s ≢ 0) × IsString m (s + 1) k

-- The `k` bytes from `a` are those from `b`.
abbrev pub SameBytes : Memory → ℕ → ℕ → ℕ → Type 0
SameBytes m a b zero = Unit {0}
SameBytes m a b (suc k) = (m a ≡ m b) × SameBytes m (a + 1) (b + 1) k

count_from-IsString :
    (k fuel s sz : ℕ) (m : Memory)
    → IsString m s k
    → k < fuel
    → count_from fuel s sz m ≡ some (sz + k)
unfolding count_from
count_from-IsString k zero s sz m h lt = absurd (omega arith)
count_from-IsString zero (suc fuel) s sz m h lt = ground arith
count_from-IsString (suc k) (suc fuel) s sz m (h, rest) lt =
    ground (arith, count_from-IsString k fuel (s + 1) (sz + 1) m rest (omega arith))

-- With more fuel than the string has bytes, strlen returns their number.
pub strlen-IsString :
    (k fuel s : ℕ) (m : Memory) → IsString m s k → k < fuel → strlen fuel s m ≡ some k
unfolding strlen
strlen-IsString k fuel s m h lt =
    count_from-IsString k fuel s 0 m h lt ∙ (let e : 0 + k ≡ k = omega arith in ap some e)

find_end-IsString :
    (k fuel s : ℕ) (m : Memory) → IsString m s k → k < fuel → find_end fuel s m ≡ some (s + k)
unfolding find_end
find_end-IsString k zero s m h lt = absurd (omega arith)
find_end-IsString zero (suc fuel) s m h lt = ground arith
find_end-IsString (suc k) (suc fuel) s m (h, rest) lt =
    ground (arith, find_end-IsString k fuel (s + 1) m rest (omega arith))

-- The string is not touched by a write below it or behind its end.
IsString-write :
    (k s a v : ℕ) (m : Memory) → IsString m s k → (a < s) ⊎ (s + k < a) → IsString (write m a v) s k
IsString-write zero s a v m h out = ground arith
IsString-write (suc k) s a v m (h, rest) out =
    (ground arith, IsString-write k (s + 1) a v m rest (omega arith))

byte_copied :
    (m : Memory) (d s n : ℕ)
    → IsForward d s (suc n)
    → copied (write m d (m s)) (d + 1) (s + 1) n ≡ copied m d s (suc n)
byte_copied m d s n fwd = fun_ext λ x. ground (arith, here x, there x)
  where
    here : (x : ℕ) → x ≡ d → m (s + (x - d)) ≡ m s
    here x e = ap m (omega arith)

    there : (x : ℕ) → d + 1 ≤ x → s + 1 + (x - (d + 1)) ≡ s + (x - d)
    there x h = omega arith

-- strcpy copies the string and its terminator, and no other byte, unless the destination
-- starts inside the source.
pub strcpy-copied :
    (k fuel d s : ℕ) (m : Memory)
    → IsString m s k
    → IsForward d s (suc k)
    → k < fuel
    → strcpy fuel d s m ≡ some (copied m d s (suc k))
unfolding strcpy
strcpy-copied k zero d s m h fwd lt = absurd (omega arith)
strcpy-copied zero (suc fuel) d s m h fwd lt = ground (arith, byte_copied m d s 0 fwd, none_copied)
  where
    none_copied : write m d (m s) ≡ copied (write m d (m s)) (d + 1) (s + 1) 0
    none_copied = fun_ext λ x. ground arith
strcpy-copied (suc k) (suc fuel) d s m (h, rest) fwd lt = ground (
  arith,
  byte_copied m d s (suc k) fwd,
  strcpy-copied k fuel (d + 1) (s + 1) (write m d (m s))
      (IsString-write k (s + 1) d (m s) m rest (omega arith)) (omega arith) (omega arith),
)

-- strncpy copies `n` bytes, whatever they are.
pub strncpy-copied : (n d s : ℕ) (m : Memory) → IsForward d s n → strncpy d s n m ≡ copied m d s n
unfolding strncpy
strncpy-copied zero d s m fwd = fun_ext λ x. ground arith
strncpy-copied (suc n) d s m fwd =
    strncpy-copied n (d + 1) (s + 1) (write m d (m s)) (omega arith) ∙ byte_copied m d s n fwd

-- A string reads the same in a memory that agrees on its bytes.
IsString-moved :
    (k s t : ℕ) (m m' : Memory)
    → IsString m s k
    → ((i : ℕ) → i ≤ k → m' (t + i) ≡ m (s + i))
    → IsString m' t k
IsString-moved zero s t m m' h same =
    let e : t ≡ t + 0 = omega arith in
    let f : s + 0 ≡ s = omega arith in ap m' e ∙ same 0 (omega arith) ∙ ap m f ∙ h
IsString-moved (suc k) s t m m' (h, rest) same = (
  λ z. h (sym (ap m f) ∙ sym (same 0 (omega arith)) ∙ sym (ap m' e) ∙ z),
  IsString-moved k (s + 1) (t + 1) m m' rest
      (λ i le. ap m' (shift t i) ∙ same (suc i) (omega arith) ∙ ap m (sym (shift s i))),
)
  where
    e : t ≡ t + 0
    e = omega arith

    f : s + 0 ≡ s
    f = omega arith

    shift : (a i : ℕ) → a + 1 + i ≡ a + suc i
    shift a i = omega arith

-- A string that goes on where another's bytes end.
IsString-join :
    (j k s : ℕ) (m m' : Memory)
    → IsString m s j
    → ((i : ℕ) → i < j → m' (s + i) ≡ m (s + i))
    → IsString m' (s + j) k
    → IsString m' s (j + k)
IsString-join zero k s m m' h same rest =
    let e : s + 0 ≡ s = omega arith in
    let f : k ≡ 0 + k = omega arith in subst (IsString m' s) f (subst (λ t. IsString m' t k) e rest)
IsString-join (suc j) k s m m' (h, more) same rest =
    let g : suc (j + k) ≡ suc j + k = omega arith in
    let r : s + suc j ≡ s + 1 + j = omega arith in
    subst (IsString m' s) g (
      λ z. h (ap m f ∙ sym (same 0 (omega arith)) ∙ ap m' (sym f) ∙ z),
      IsString-join j k (s + 1) m m' more
          (λ i lt. ap m' (shift i) ∙ same (suc i) (omega arith) ∙ ap m (sym (shift i)))
          (subst (λ t. IsString m' t k) r rest),
    )
  where
    f : s ≡ s + 0
    f = omega arith

    shift : (i : ℕ) → s + 1 + i ≡ s + suc i
    shift i = omega arith

-- strcat appends the second string at the end of the first and writes nothing else, if it does
-- not write over the second string: what stands at `d` then is a string of both lengths.
pub strcat-copied :
    (j k fuel d s : ℕ) (m : Memory)
    → IsString m d j
    → IsString m s k
    → IsForward (d + j) s (suc k)
    → j < fuel
    → k < fuel
    → (strcat fuel d s m ≡ some (copied m (d + j) s (suc k)))
      × IsString (copied m (d + j) s (suc k)) d (j + k)
unfolding strcat
strcat-copied j k fuel d s m hd hs fwd ltj ltk = (
  rw (find_end-IsString j fuel d m hd ltj) (strcpy-copied k fuel (d + j) s m hs fwd ltk),
  IsString-join j k d m (copied m (d + j) s (suc k)) hd (λ i lt. ground arith)
      (IsString-moved k s (d + j) m (copied m (d + j) s (suc k)) hs
        (λ i le. ground (arith, offset i))),
)
  where
    offset : (i : ℕ) → m (s + (d + j + i - (d + j))) ≡ m (s + i)
    offset i = ap m (omega arith)
