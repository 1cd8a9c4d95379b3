-- ===== src/Typing/Tests.antt =====
-- Runs of the typing game, and its theorems at concrete inputs.
use nexus_am_ame.Base.{
  ℕ, ◌+◌, ◌-◌, ◌^◌, ◌≤◌, ◌<◌, ◌≡◌, ◌⊎◌, arith, refl, true, false, some, leb, ltb, ◌&&◌, ◌==◌,
  if◌then◌else◌, List, [], ◌∷◌,
}
use nexus_am_ame.Devices.Input.{KeyEvent}
use nexus_am_ame.Devices.Io.{read_key}
use nexus_am_ame.Typing.Keyboard.{
  Keys, letter_code, query_key, release_key, keyboard_event, keyboard_event-read_key,
}
use nexus_am_ame.Typing.Game.{
  Game, create_new_letter, update_letter_pos, update_keypress, game_frame,
}
use nexus_am_ame.Typing.Game.Moves.{times}
use nexus_am_ame.Typing.Game.Letters.{letters, advance, count_hits, count_misses}
use nexus_am_ame.Typing.Game.Refine.{IsGame, update_letter_pos_lem}
use nexus_am_ame.Typing.Game.Create.{new_letter, create_new_letter_lem}
use nexus_am_ame.Typing.Game.Place.{OnCanvas}
use nexus_am_ame.Typing.Game.Press.{is_target, shot, update_keypress_lem}
use nexus_am_ame.Typing.Game.Frame.{game_frame_lem}
use nexus_am_ame.Typing.Draw.{
  itoa_digits, itoa, Screen, background_color, clear_screen, redraw_screen,
}
use nexus_am_ame.Typing.Draw.Clear.{IsDrawn, clear_screen_lem}
use nexus_am_ame.Typing.Draw.Redraw.{redraw_screen_lem}

-- Key C goes up while A, B and C are down.
abbrev keys : Keys
keys = record { letter_pressed = λ i. ltb i 3; key_code = 58 }

abbrev release_c : KeyEvent
release_c = record { keydown = false; keycode = 58 }

keyboard_event-read_key_example :
    (ks' : Keys) × (keyboard_event (read_key release_c) keys ≡ some (true, ks'))
    × ((i : ℕ)
        → i < 26
        → query_key ks' i ≡ (if letter_code i == 58 then false else query_key keys i))
keyboard_event-read_key_example =
    keyboard_event-read_key release_c keys (omega arith) (omega arith) (omega arith)

-- Node 1 is about to leave below, node 2 is a new letter, and node 3 is free.
abbrev two_letters : Game
two_letters = record {
  x = λ i. 8;
  y = λ i. if i == 1 then 192 else 0;
  text = λ i. 0;
  v = λ i. 1;
  prev = λ i. if i == 1 then 2 else 0;
  next = λ i. if i == 2 then 1 else 0;
  free_head = 3;
  head = 2;
  hit = 0;
  miss = 4;
}

two_letters-IsGame : IsGame two_letters (2 ∷ 1 ∷ []) (3 ∷ [])
two_letters-IsGame = record {
  shown = (refl, (λ z. omega (arith, z)), refl, (refl, (λ z. omega (arith, z)), refl, refl));
  unused = (refl, (λ z. omega (arith, z)), refl);
  apart = λ a. ground arith;
}

update_letter_pos_lem_example :
    (g' : Game) × (xs' : List ℕ) × (fs' : List ℕ) × (update_letter_pos two_letters ≡ some g')
    × IsGame g' xs' fs'
    × ((a : ℕ) → times a xs' + times a fs' ≡ times a (2 ∷ 1 ∷ []) + times a (3 ∷ []))
    × (letters g' xs' ≡ advance (letters two_letters (2 ∷ 1 ∷ [])))
    × (g'.hit ≡ count_hits 0 (letters two_letters (2 ∷ 1 ∷ [])))
    × (g'.miss ≡ count_misses 4 (letters two_letters (2 ∷ 1 ∷ [])))
update_letter_pos_lem_example =
    update_letter_pos_lem two_letters (2 ∷ 1 ∷ []) (3 ∷ []) two_letters-IsGame (omega arith)

create_new_letter_lem_example :
    (g' : Game) × (create_new_letter 5 700 27 (two_letters, keys) ≡ (g', release_key 1 keys))
    × IsGame g' (3 ∷ 2 ∷ 1 ∷ []) []
    × (letters g' (3 ∷ 2 ∷ 1 ∷ []) ≡ new_letter 5 27 ∷ letters two_letters (2 ∷ 1 ∷ []))
create_new_letter_lem_example =
    create_new_letter_lem 5 700 27 two_letters 3 (2 ∷ 1 ∷ []) [] two_letters-IsGame keys

-- The static variables at the start of the program.
abbrev zeroes : Game
zeroes = record {
  x = λ i. 0;
  y = λ i. 0;
  text = λ i. 0;
  v = λ i. 0;
  prev = λ i. 0;
  next = λ i. 0;
  free_head = 0;
  head = 0;
  hit = 0;
  miss = 0;
}

-- Both letters are an A, and its key is down: the lower one is hit.
update_keypress_lem_example :
    ((update_keypress (two_letters, keys) ≡ some (false, two_letters, keys))
      × ((a : ℕ) → 1 ≤ times a (2 ∷ 1 ∷ []) → is_target two_letters keys (2 ^ 32 - 100) a ≡ false))
    ⊎ ((u : ℕ) × (1 ≤ times u (2 ∷ 1 ∷ []))
        × (is_target two_letters keys (2 ^ 32 - 100) u ≡ true)
        × ((a : ℕ)
            → 1 ≤ times a (2 ∷ 1 ∷ [])
            → is_target two_letters keys (two_letters.y u) a ≡ false)
        × (update_keypress (two_letters, keys)
            ≡ some (true, shot two_letters u, release_key (two_letters.text u) keys))
        × IsGame (shot two_letters u) (2 ∷ 1 ∷ []) (3 ∷ []))
update_keypress_lem_example =
    update_keypress_lem two_letters keys (2 ∷ 1 ∷ []) (3 ∷ []) two_letters-IsGame (omega arith)

game_frame_lem_example :
    (g' : Game) × (keys' : Keys) × (xs' : List ℕ) × (fs' : List ℕ) × (game_frame 20
        (5, 700, 27)
        (two_letters, keys)
      ≡ some (g', keys'))
    × IsGame g' xs' fs'
    × ((a : ℕ) → times a xs' + times a fs' ≡ times a (2 ∷ 1 ∷ []) + times a (3 ∷ []))
    × (OnCanvas two_letters (2 ∷ 1 ∷ []) → OnCanvas g' xs')
game_frame_lem_example =
    game_frame_lem 20 5 700 27 two_letters keys (2 ∷ 1 ∷ []) 3 [] two_letters-IsGame (omega arith)

-- One character at (16, 8), a full block.
abbrev block : Screen
block = record {
  canvas =
      λ y x. if leb 8 y && ltb y 16 && (leb 16 x && ltb x 24) then 0xffffff else background_color;
  last_draw = (16, 8) ∷ [];
  x_adjust = 40;
  y_adjust = 20;
  rects = [];
}

block-IsDrawn : IsDrawn block
block-IsDrawn = record {
  inside = refl;
  blank = λ a b low left off.
      (let out : (leb 8 a && ltb a 16 && (leb 16 b && ltb b 24)) ≡ false = ground (arith, off) in
        rw out refl);
}

clear_screen_lem_example :
    (s' : Screen) × (clear_screen (λ i j. 0) block ≡ some s')
    × (s'.last_draw ≡ [])
    × ((a b : ℕ) → a < 200 → b < 320 → s'.canvas a b ≡ background_color)
clear_screen_lem_example = clear_screen_lem (λ i j. 0) block block-IsDrawn

itoa_positive : itoa 2048 ≡ some (50 ∷ 48 ∷ 52 ∷ 56 ∷ [])
unfolding itoa_digits
itoa_positive = refl

-- -5 is printed as a plus sign.
itoa_negative : itoa (2 ^ 32 - 5) ≡ some (43 ∷ [])
unfolding itoa_digits
itoa_negative = refl

redraw_screen_lem_example :
    (s' : Screen) × (redraw_screen (λ ch i. ch + i) (λ i j. 0) 58 30 two_letters block ≡ some s')
    × IsDrawn s'
redraw_screen_lem_example =
    redraw_screen_lem (λ ch i. ch + i) (λ i j. 0) 58 30 two_letters (2 ∷ 1 ∷ []) (3 ∷ []) block
      two_letters-IsGame
      (λ a h. (ground (arith, h), ground (arith, h), ground (arith, h), omega arith)) (omega arith)
      (omega arith) (omega arith) (omega arith) (omega arith) block-IsDrawn
