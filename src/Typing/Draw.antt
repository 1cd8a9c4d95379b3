-- ===== src/Typing/Draw.antt =====
-- apps/typing/draw.c: the canvas, and what is drawn on it. `font` is font8x8_basic, by character and
-- row; it has 128 characters. The result is `none` where an assertion halts the program and where it leaves an array. The
-- calls of draw_rect are in the order of time, the last one first; draw_sync is left out.
pub mod Cells
pub mod Clear
pub mod Numbers
pub mod Redraw
use nexus_am_ame.Base.{
  ℕ, zero, suc, ◌+◌, ◌-◌, ◌*◌, ◌/◌, ◌%◌, ◌^◌, Bool, true, false, leb, ltb, ◌==◌, ◌&&◌, ◌||◌, not,
  if◌then◌else◌, Option, some, none, ◌>>=◌, guard, List, [], ◌∷◌, ◌++◌, length,
}
use nexus_am_ame.Words.{int_less}
use nexus_am_ame.Typing.Game.{Game, pool_size}

-- By row and column.
abbrev pub Pixels : Type 0
Pixels = ℕ → ℕ → ℕ

pub record Rect : Type 0 where
  pub pixels : Pixels
  pub x : ℕ
  pub y : ℕ
  pub w : ℕ
  pub h : ℕ

-- `last_draw_idx` is the length of `last_draw`, which has (x, y) for each character.
pub record Screen : Type 0 where
  pub canvas : Pixels
  pub last_draw : List (ℕ × ℕ)
  pub x_adjust : ℕ
  pub y_adjust : ℕ
  pub rects : List Rect

abbrev pub background_color : ℕ
background_color = 0x2a0a29

abbrev pub put_pixel : Pixels → ℕ → ℕ → ℕ → Pixels
put_pixel p i j color a b = if (a == i) && (b == j) then color else p a b

abbrev pub draw_rect_adjust : Pixels → ℕ → ℕ → ℕ → ℕ → Screen → Screen
draw_rect_adjust pixels x y w h s = record s {
  rects =
      record { pixels = pixels; x = x + s.x_adjust; y = y + s.y_adjust; w = w; h = h } ∷ s.rects;
}

-- The sizes are those of the device.
pub init_screen : ℕ → ℕ → Screen → Option Screen
init_screen screen_width screen_height s =
    let canvas : Pixels =
      λ y x. if ltb y 200 && ltb x 320 then background_color else s.canvas y x in
    guard (leb 320 screen_width && leb 200 screen_height) (
      some (
        draw_rect_adjust canvas 0 0 320 200 (record s {
          canvas = canvas;
          x_adjust = (screen_width - 320) / 2;
          y_adjust = (screen_height - 200) / 2;
        })))

-- The bodies of the loops over a character: the canvas and `buf`.
abbrev pub draw_pixel : Bool → ℕ → ℕ → ℕ → ℕ → ℕ → Pixels × Pixels → Pixels × Pixels
draw_pixel on x y color i j (canvas, buf) =
    if on
    then (put_pixel canvas (y + i) (x + j) color, put_pixel buf i j color)
    else (canvas, put_pixel buf i j (canvas (y + i) (x + j)))

-- The first `n` columns of a row, and the first `n` rows.
unfoldable pub draw_columns : ℕ → ℕ → ℕ → ℕ → ℕ → ℕ → Pixels × Pixels → Option (Pixels × Pixels)
draw_columns zero row x y color i p = some p
draw_columns (suc j) row x y color i p = draw_columns j row x y color i p >>= λ q.
    guard (ltb (x + j) 320 && ltb (y + i) 200)
      (some (draw_pixel (row / 2 ^ j % 2 == 1) x y color i j q))

unfoldable pub draw_rows : ℕ → (ℕ → ℕ) → ℕ → ℕ → ℕ → Pixels × Pixels → Option (Pixels × Pixels)
draw_rows zero rows x y color p = some p
draw_rows (suc i) rows x y color p =
    draw_rows i rows x y color p >>= λ q. draw_columns 8 (rows i) x y color i q

-- `buf` has no value at first.
pub draw_character : (ℕ → ℕ → ℕ) → Pixels → ℕ → ℕ → ℕ → ℕ → Screen → Option Screen
draw_character font buf ch x y color s =
    guard (ltb ch 128) (draw_rows 8 (font ch) x y color (s.canvas, buf)) >>= λ (canvas, drawn).
    guard (ltb (length s.last_draw) 1000) (
      some (record (draw_rect_adjust drawn x y 8 8 (record s { canvas = canvas })) {
        last_draw = s.last_draw ++ (x, y) ∷ [];
      }))

-- `clear_character` has the same loops, and sets each pixel as that of a full character.
pub clear_character : Pixels → ℕ → ℕ → Screen → Option Screen
clear_character buf x y s =
    draw_rows 8 (λ i. 255) x y background_color (s.canvas, buf) >>= λ (canvas, drawn).
    some (draw_rect_adjust drawn x y 8 8 (record s { canvas = canvas }))

-- The loop of clear_screen.
unfoldable pub clear_all : Pixels → List (ℕ × ℕ) → Screen → Option Screen
clear_all buf [] s = some s
clear_all buf ((x, y) ∷ cells) s = clear_character buf x y s >>= clear_all buf cells

pub clear_screen : Pixels → Screen → Option Screen
clear_screen buf s =
    clear_all buf s.last_draw s >>= λ cleared. some (record cleared { last_draw = [] })

unfoldable pub draw_string : (ℕ → ℕ → ℕ) → Pixels → List ℕ → ℕ → ℕ → ℕ → Screen → Option Screen
draw_string font buf [] x y color s = some s
draw_string font buf (ch ∷ str) x y color s = draw_character font buf ch x y color s >>= λ drawn.
    if leb 320 (x + 8)
    then draw_string font buf str 0 (y + 8) color drawn
    else draw_string font buf str (x + 8) y color drawn

-- `n % 10 + '0'` and `n / 10` of an int.
abbrev pub digit : ℕ → ℕ
digit n = if leb (2 ^ 31) n then 48 - (2 ^ 32 - n) % 10 else n % 10 + 48

abbrev pub tenth : ℕ → ℕ
tenth n = if leb (2 ^ 31) n then (2 ^ 32 - (2 ^ 32 - n) / 10) % 2 ^ 32 else n / 10

-- The loop, with room for `left` characters in front of those that are there.
unfoldable pub itoa_digits : ℕ → ℕ → List ℕ → Option (List ℕ)
itoa_digits zero n s = none
itoa_digits (suc left) n s =
    let rest = itoa_digits left (tenth n) (digit n ∷ s) in
    if int_less 0 (tenth n) then rest else some (digit n ∷ s)

-- The last of the 64 bytes of its array stays 0.
abbrev pub itoa : ℕ → Option (List ℕ)
itoa n = itoa_digits 63 n []

-- The loop over the letters, by fuel.
unfoldable pub draw_letters : ℕ → (ℕ → ℕ → ℕ) → Pixels → ℕ → Game → Screen → Option Screen
draw_letters zero font buf it g s = none
draw_letters (suc n) font buf it g s =
    let rest =
      draw_character font buf (g.text it + 65) (g.x it) (g.y it) 0xffffffff s
      >>= draw_letters n font buf (g.next it) g in
    if it == 0 then some s else rest

-- The lines with the last key, the hits, the misses and the frames.
pub draw_counts : (ℕ → ℕ → ℕ) → Pixels → ℕ → ℕ → Game → Screen → Option Screen
draw_counts font buf key fps g s =
    (itoa key >>= λ str. draw_string font buf str 0 (200 - 8) 0xffffffff s)
    >>= (λ s. itoa g.hit >>= λ str. draw_string font buf str (320 - length str * 8) 0 0x00ff00 s)
    >>= (λ s.
        itoa g.miss >>= λ str. draw_string font buf str (320 - length str * 8) (200 - 8) 0xfa5858 s)
    >>= (λ s. itoa fps >>= λ str.
        draw_string font buf str 0 0 0xf3f781 s
        >>= draw_string font buf (70 ∷ 80 ∷ 83 ∷ []) (length str * 8) 0 0xf3f781)

pub redraw_screen : (ℕ → ℕ → ℕ) → Pixels → ℕ → ℕ → Game → Screen → Option Screen
redraw_screen font buf key fps g s =
    clear_screen buf s
    >>= draw_letters (pool_size + 2) font buf g.head g
    >>= draw_counts font buf key fps g
