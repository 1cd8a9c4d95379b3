-- ===== src/Typing/Keyboard.antt =====
-- apps/typing/keyboard.c: which letter keys are down.
use nexus_am_ame.Base.{
  ℕ, zero, suc, ◌+◌, ◌-◌, ◌*◌, ◌/◌, ◌%◌, ◌^◌, ◌<◌, ◌≡◌, ◌≢◌, arith, refl, ap, ◌∙◌, bit_and, bit_or,
  bit_and_high, bit_and_low, bit_or_high, Bool-cases, inl, inr, ==_iff, Bool, true, false, not, ltb,
  lt→ltb, ◌==◌, ◌&&◌, if◌then◌else◌, Option, some, none, get_or,
}
use nexus_am_ame.Devices.Keys.{key_none, key_escape, letters}
use nexus_am_ame.Devices.Input.{KeyEvent}
use nexus_am_ame.Devices.Io.{read_key}

-- `letter_pressed` and `key_code`
pub record Keys : Type 0 where
  pub letter_pressed : ℕ → Bool
  pub key_code : ℕ

abbrev pub letter_code : ℕ → ℕ
letter_code i = get_or letters i key_none

abbrev put_letter : ℕ → Bool → Keys → Keys
put_letter i b ks = record ks { letter_pressed = λ j. if j == i then b else ks.letter_pressed j }

-- The loops over the letters, from the first: those with this code get the value.
unfoldable pub set_letters : ℕ → ℕ → Bool → Keys → Keys
set_letters zero code b ks = ks
set_letters (suc n) code b ks =
    let rest = set_letters n code b ks in
    if letter_code n == code then put_letter n b rest else rest

pub press_key : ℕ → Keys → Keys
press_key scan_code = set_letters 26 scan_code true

pub release_key : ℕ → Keys → Keys
release_key index = put_letter index false

abbrev pub query_key : Keys → ℕ → Bool
query_key ks index = ks.letter_pressed index

-- `keycode & ~KEYDOWN_MASK`, without the bits of the mask
abbrev code_of : ℕ → ℕ
code_of keycode = keycode - bit_and keycode 0x8000

-- `none` where it halts; `keycode` is what read_key returned.
pub keyboard_event : ℕ → Keys → Option (Bool × Keys)
keyboard_event keycode ks =
    if code_of keycode == key_escape
    then none
    else (if code_of keycode == key_none
        then some (false, ks)
        else (if not (bit_and keycode 0x8000 == 0)
            then some (true, press_key (code_of keycode) (record ks { key_code = code_of keycode }))
            else some (true, set_letters 26 keycode false ks)))

-- The two parts of what read_key returns.
mask_of : (x : ℕ) → bit_and x 0x8000 ≡ x / 2 ^ 15 % 2 * 2 ^ 15
mask_of x = bit_and_high 15 x 1 ∙ ap (λ t. t * 2 ^ 15) (bit_and_low 1 (x / 2 ^ 15))

pressed_code : (k : ℕ) → k < 2 ^ 15 → bit_or k 0x8000 ≡ k + 0x8000
pressed_code k h =
    let none_above : k / 2 ^ 15 ≡ 0 = omega arith in
    bit_or_high 15 k 1 ∙ rw none_above (omega arith)

code_of-read_key : (ev : KeyEvent) → ev.keycode < 2 ^ 15 → code_of (read_key ev) ≡ ev.keycode
unfolding read_key
code_of-read_key ev h = elim (Bool-cases ev.keydown) [
  | inl down ↦ rw (down, pressed_code ev.keycode h) (omega (arith, mask_of (ev.keycode + 0x8000)))
  | inr up ↦ rw up (omega (arith, mask_of ev.keycode))
]

down-read_key :
    (ev : KeyEvent) → ev.keycode < 2 ^ 15 → not (bit_and (read_key ev) 0x8000 == 0) ≡ ev.keydown
unfolding read_key
down-read_key ev h = elim (Bool-cases ev.keydown) [
  | inl down ↦ rw (down, pressed_code ev.keycode h) (ground (arith, mask_of (ev.keycode + 0x8000)))
  | inr up ↦ rw up (ground (arith, mask_of ev.keycode))
]

read_key-released : (ev : KeyEvent) → ev.keydown ≡ false → read_key ev ≡ ev.keycode
unfolding read_key
read_key-released ev up = rw up refl

module _ (has_code : ℕ → Bool) (n i : ℕ) (b before r : Bool)
    (rest : r ≡ (if ltb i n && has_code i then b else before)) where
  after_hit :
      has_code n ≡ true
      → (if i == n then b else r) ≡ (if ltb i (suc n) && has_code i then b else before)
  after_hit hit = elim (Bool-cases (i == n)) [
    | inl here ↦ let same = ap has_code ((==_iff i n).0 here) in ground (arith, here, same, hit)
    | inr other ↦ ground (arith, rest, other)
  ]

  after_miss : has_code n ≡ false → r ≡ (if ltb i (suc n) && has_code i then b else before)
  after_miss missed = elim (Bool-cases (i == n)) [
    | inl here ↦
        let same = ap has_code ((==_iff i n).0 here) in ground (arith, rest, here, same, missed)
    | inr other ↦ ground (arith, rest, other)
  ]

set_letters_lem :
    (n code i : ℕ) (b : Bool) (ks : Keys)
    → query_key (set_letters n code b ks) i
      ≡ (if ltb i n && (letter_code i == code) then b else query_key ks i)
unfolding set_letters
set_letters_lem zero code i b ks = ground arith
set_letters_lem (suc n) code i b ks =
    let rest = set_letters_lem n code i b ks in
    let has_code : ℕ → Bool = λ k. letter_code k == code in
    elim (Bool-cases (letter_code n == code)) [
      | inl hit ↦ rw hit (after_hit has_code n i b (query_key ks i) _ rest hit)
      | inr missed ↦ rw missed (after_miss has_code n i b (query_key ks i) _ rest missed)
    ]

-- An event of the device other than the escape key and no key: it is reported as one, and then
-- every letter with the code of its key is down or not as the event says, and the others as before.
pub keyboard_event-read_key :
    (ev : KeyEvent) (ks : Keys)
    → ev.keycode < 2 ^ 15
    → ev.keycode ≢ key_none
    → ev.keycode ≢ key_escape
    → (ks' : Keys) × (keyboard_event (read_key ev) ks ≡ some (true, ks'))
      × ((i : ℕ)
          → i < 26
          → query_key ks' i ≡ (if letter_code i == ev.keycode then ev.keydown else query_key ks i))
unfolding keyboard_event press_key
keyboard_event-read_key ev ks small some_key no_escape =
    let code = code_of-read_key ev small in
    let down = down-read_key ev small in
    let escape : (ev.keycode == key_escape) ≡ false = ground (arith, no_escape) in
    let nothing : (ev.keycode == key_none) ≡ false = ground (arith, some_key) in
    elim (Bool-cases ev.keydown) [
      | inl pressed ↦ (
        press_key ev.keycode (record ks { key_code = ev.keycode }),
        rw (code, escape, nothing, down, pressed) refl,
        λ i h. rw pressed (set_letters_lem 26 ev.keycode i true _ ∙ in_range i true h),
      )
      | inr released ↦ (
        set_letters 26 ev.keycode false ks,
        rw (code, escape, nothing, down ∙ released, read_key-released ev released) refl,
        λ i h. rw released (set_letters_lem 26 ev.keycode i false ks ∙ in_range i false h),
      )
    ]
  where
    in_range :
        (i : ℕ) (b : Bool)
        → i < 26
        → (if ltb i 26 && (letter_code i == ev.keycode) then b else query_key ks i)
          ≡ (if letter_code i == ev.keycode then b else query_key ks i)
    in_range i b h = rw (lt→ltb i 26 h) refl
