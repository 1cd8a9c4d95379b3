-- ===== src/Cputest/Programs/Bit.antt =====
-- bit.c of tests/cputest/tests.
use nexus_am_ame.Base.{
  ℕ, ◌-◌, ◌/◌, ◌%◌, ◌^◌, bit_and, bit_or, Bool, true, false, not, ◌&&◌, ◌==◌, if◌then◌else◌, Option,
  some, guard, List, [], ◌∷◌, get_or, set,
}

-- Bits of a byte of a buffer, by their offset in the buffer.
unfoldable pub getbit : List ℕ → ℕ → Bool
getbit buf offset =
    let mask = 2 ^ (offset % 8) in not (bit_and (get_or buf (offset / 8) 0) mask == 0)

unfoldable pub setbit : List ℕ → ℕ → Bool → List ℕ
setbit buf offset bit =
    let byte = offset / 8 in
    let mask = 2 ^ (offset % 8) in
    let p = get_or buf byte 0 in
    set buf byte (if bit then bit_or p mask else bit_and p (255 - mask))

unfoldable pub main : Option ℕ
main =
    let buf : List ℕ = 0xaa ∷ 0 ∷ [] in
    let after =
      setbit
        (setbit
          (setbit
            (setbit (setbit (setbit (setbit (setbit buf 8 true) 9 false) 10 true) 11 false) 12 true)
            13 false)
          14 true)
        15 false in
    guard
      (not (getbit buf 0)
        && getbit buf 1
        && not (getbit buf 2)
        && getbit buf 3
        && not (getbit buf 4)
        && getbit buf 5
        && not (getbit buf 6)
        && getbit buf 7)
      (guard (get_or after 1 0 == 0x55) (some 0))
