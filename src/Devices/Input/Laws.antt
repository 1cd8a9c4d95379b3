-- ===== src/Devices/Input/Laws.antt =====
-- What the keyboard reports is what a person could do who holds at most one key at a time.
use nexus_am_ame.Base.{
  ℕ, ◌<◌, ◌≡◌, ◌≢◌, arith, refl, sym, Bool, true, false, not, ltb, ◌==◌, ◌&&◌, ◌||◌, if◌then◌else◌,
  Option, some, ◌>>=◌, List, [], ◌∷◌, ◌⊎◌, inl, inr, Bool-cases,
}
use nexus_am_ame.Devices.Input.{
  Keyboard, KeyEvent, am_keycode, press_or_release, no_key, am_input_read,
}

-- With the key `held` (0 for none), an event may press a key if no other is held, and release the
-- key that is held.
abbrev pub may_happen : ℕ → KeyEvent → Bool
may_happen held ev =
    if ev.keydown
    then not (ev.keycode == 0) && ((held == 0) || (held == ev.keycode))
    else (ev.keycode == 0) || (ev.keycode == held)

abbrev pub held_after : ℕ → KeyEvent → ℕ
held_after held ev = if ev.keydown then ev.keycode else (if ev.keycode == 0 then held else 0)

unfoldable pub all_may_happen : ℕ → List KeyEvent → Bool
all_may_happen held [] = true
all_may_happen held (ev ∷ evs) = may_happen held ev && all_may_happen (held_after held ev) evs

-- Reads one after the other, each with its character and time.
unfoldable pub read_all : List (ℕ × ℕ) → Keyboard → Option (List KeyEvent)
read_all [] st = some []
read_all (r ∷ rs) st = am_input_read r.0 r.1 st >>= λ s. read_all rs s.1 >>= λ evs. some (s.0 ∷ evs)

-- The key that is held; while a release is reported, the next key is not down yet.
abbrev pub held_key : Keyboard → ℕ
held_key st = if st.last_release then 0 else st.last_key

-- A key waits to be pressed only if there is one.
abbrev pub IsValid : Keyboard → Type 0
IsValid st = st.last_release ≡ true → st.last_key ≢ 0

abbrev pub AreBytes : List (ℕ × ℕ) → Type 0
AreBytes [] = Unit {0}
AreBytes (r ∷ rs) = ((r.0 < 128) ⊎ (r.0 ≡ 255)) × AreBytes rs

abbrev Simulates : Keyboard → KeyEvent × Keyboard → Type 0
Simulates st s =
    (may_happen (held_key st) s.0 ≡ true)
    × (held_key s.1 ≡ held_after (held_key st) s.0)
    × IsValid s.1

free_step :
    (key now : ℕ) (st : Keyboard)
    → st.last_release ≡ false
    → Simulates st (if key == 0 then no_key now st else press_or_release key now st)
free_step key now st free = elim (Bool-cases (key == 0)) [
  | inl nothing ↦
      rw nothing (ground (arith, free), ground (arith, free), λ e. ground (arith, e, free))
  | inr some_key ↦ rw some_key (
    ground (arith, free, some_key),
    ground (arith, free, some_key),
    λ e z. ground (arith, e, z, some_key),
  )
]

read_step :
    (char now : ℕ) (st : Keyboard)
    → (char < 128) ⊎ (char ≡ 255)
    → IsValid st
    → (s : KeyEvent × Keyboard) × (am_input_read char now st ≡ some s) × Simulates st s
unfolding am_input_read
read_step char now st ok valid = elim (Bool-cases st.last_release) [
  | inl waiting ↦
      let ne = valid waiting in
      (
        (
          record { keydown = true; keycode = st.last_key },
          record st { last_release = false; timestamp = now },
        ),
        rw waiting refl,
        (ground (arith, waiting, ne), ground (arith, waiting, ne), λ e. ground (arith, e)),
      )
  | inr free ↦
      let k = if char == 255 then 0 else char in
      let small : ltb k 128 ≡ true = ground (arith, ok) in
      (
        (if am_keycode k == 0 then no_key now st else press_or_release (am_keycode k) now st),
        rw (free, small) refl,
        free_step (am_keycode k) now st free,
      )
]

-- From any state in which a key that waits is a key, reads of ASCII characters or of 255 all
-- succeed, and their events form a sequence in which a key is pressed only if no other key is
-- held, and only the key that is held is released.
pub read_all_lem :
    (rs : List (ℕ × ℕ)) (st : Keyboard)
    → AreBytes rs
    → IsValid st
    → (evs : List KeyEvent) × (read_all rs st ≡ some evs)
      × (all_may_happen (held_key st) evs ≡ true)
unfolding read_all all_may_happen
read_all_lem [] st ok valid = ([], refl, refl)
read_all_lem (r ∷ rs) st (ok, oks) valid =
    let (s, run, (may, held, valid')) = read_step r.0 r.1 st ok valid in
    let (evs, runs, mays) = read_all_lem rs s.1 oks valid' in
    (s.0 ∷ evs, rw (run, runs) refl, rw (may, sym held) mays)
