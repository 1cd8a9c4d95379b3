-- ===== src/Devices/Input.antt =====
-- The keyboard of am/src/noop/common/input.c, which makes key events of characters. What the UART
-- gives and what the clock reads are arguments; the UART gives bytes, so `_k` is never -1.
pub mod Laws
use nexus_am_ame.Base.{
  ℕ, ◌+◌, ◌-◌, ◌%◌, ◌^◌, Bool, true, false, not, ltb, leb, ◌==◌, ◌&&◌, if◌then◌else◌, Option, guard,
  some, get_or,
}
use nexus_am_ame.Devices.Keys.{key_none, key_1, key_0, key_space, letters}

-- The static variables.
pub record Keyboard : Type 0 where
  pub last_key : ℕ
  pub last_release : Bool
  pub timestamp : ℕ

-- `_DEV_INPUT_KBD_t`
pub record KeyEvent : Type 0 where
  pub keydown : Bool
  pub keycode : ℕ

-- `am_keycode[k]`
pub am_keycode : ℕ → ℕ
am_keycode k =
    if k == 32
    then key_space
    else (if k == 48
        then key_0
        else (if leb 49 k && leb k 57
            then key_1 + (k - 49)
            else (if leb 97 k && leb k 122 then get_or letters (k - 97) key_none else key_none)))

abbrev press_or_release : ℕ → ℕ → Keyboard → KeyEvent × Keyboard
press_or_release key now st =
    let another_key = not (st.last_key == key_none) && not (key == st.last_key) in
    (
      record { keydown = not another_key; keycode = if another_key then st.last_key else key },
      record {
        last_key = key;
        last_release = another_key;
        timestamp = if another_key then st.timestamp else now;
      },
    )

abbrev no_key : ℕ → Keyboard → KeyEvent × Keyboard
no_key now st =
    let expired =
      not (st.last_key == key_none) && ltb 500 ((now + 2 ^ 64 - st.timestamp) % 2 ^ 64) in
    (
      record { keydown = false; keycode = if expired then st.last_key else key_none },
      record st { last_key = if expired then key_none else st.last_key },
    )

-- `__am_input_read`
pub am_input_read : ℕ → ℕ → Keyboard → Option (KeyEvent × Keyboard)
am_input_read char now st =
    let k = if char == 255 then 0 else char in
    let key = am_keycode k in
    if st.last_release
    then some (
      record { keydown = true; keycode = st.last_key },
      record st { last_release = false; timestamp = now },
    )
    else guard (ltb k 128)
        (some (if key == key_none then no_key now st else press_or_release key now st))
