-- ===== src/Typing/Draw/Cells.antt =====
-- What a character does to the canvas.
use nexus_am_ame.Base.{
  ℕ, zero, suc, ◌+◌, ◌-◌, ◌/◌, ◌%◌, ◌^◌, ◌≤◌, ◌<◌, ◌≡◌, arith, refl, ap, ◌∙◌, Bool, Bool-cases, inl,
  inr, true, false, leb, ltb, ◌==◌, ◌&&◌, if◌then◌else◌, some, [], ◌∷◌, ◌++◌, length,
}
use nexus_am_ame.Typing.Draw.{
  Pixels, Screen, draw_rect_adjust, draw_pixel, draw_columns, draw_rows, draw_character,
  clear_character, background_color,
}

abbrev pub bit : ℕ → ℕ → Bool
bit row j = row / 2 ^ j % 2 == 1

and_assoc : (a b c : Bool) → (a && (b && c)) ≡ ((a && b) && c)
and_assoc true b c = refl
and_assoc false b c = refl

-- The pixel is in the first `n` columns of a row, and set.
abbrev in_columns : ℕ → (ℕ → Bool) → ℕ → ℕ → ℕ → ℕ → Bool
in_columns n on x y a b = (a == y) && (leb x b && ltb b (x + n) && on (b - x))

last_column :
    (n : ℕ) (on : ℕ → Bool) (x y a b : ℕ)
    → (a == y) ≡ true
    → (b == x + n) ≡ true
    → (in_columns n on x y a b ≡ false) × (in_columns (suc n) on x y a b ≡ on n)
last_column n on x y a b at_row at_column =
    let low : leb x b ≡ true = ground (arith, at_column) in
    let old : ltb b (x + n) ≡ false = ground (arith, at_column) in
    let new : ltb b (x + suc n) ≡ true = ground (arith, at_column) in
    let place : b - x ≡ n = ground (arith, at_column) in
    (rw (at_row, low, old) refl, rw (at_row, low, new, place) refl)

other_column :
    (n : ℕ) (on : ℕ → Bool) (x y a b : ℕ)
    → ((a == y) && (b == x + n)) ≡ false
    → in_columns (suc n) on x y a b ≡ in_columns n on x y a b
other_column n on x y a b off = elim (Bool-cases (a == y)) [
  | inl at_row ↦
      let same : ltb b (x + suc n) ≡ ltb b (x + n) = ground (arith, off, at_row) in
      rw (at_row, same) refl
  | inr elsewhere ↦ rw elsewhere refl
]

pixel_lem :
    (n row x y color i : ℕ) (p : Pixels × Pixels) (old a b : ℕ)
    → p.0 a b ≡ (if in_columns n (bit row) x (y + i) a b then color else old)
    → (draw_pixel (bit row n) x y color i n p).0 a b
      ≡ (if in_columns (suc n) (bit row) x (y + i) a b then color else old)
pixel_lem n row x y color i p old a b before = elim (Bool-cases ((a == y + i) && (b == x + n))) [
  | inl here ↦
      let at_row : (a == y + i) ≡ true = ground (arith, here) in
      let at_column : (b == x + n) ≡ true = ground (arith, here) in
      let (out, set) = last_column n (bit row) x (y + i) a b at_row at_column in
      elim (Bool-cases (bit row n)) [
        | inl on ↦ rw (on, here, set) (rw on refl)
        | inr off ↦ rw (off, set) (rw off (before ∙ (rw out refl)))
      ]
  | inr other ↦
      let same = other_column n (bit row) x (y + i) a b other in
      elim (Bool-cases (bit row n)) [
        | inl on ↦ rw (on, other, same) before
        | inr off ↦ rw (off, same) before
      ]
]

no_column : (row x y a b : ℕ) → in_columns 0 (bit row) x y a b ≡ false
no_column row x y a b = elim (Bool-cases (a == y)) [
  | inl here ↦
      let low_high : (leb x b && ltb b (x + 0)) ≡ false = ground arith in rw (here, low_high) refl
  | inr other ↦ rw other refl
]

columns_lem :
    (n row x y color i : ℕ) (p : Pixels × Pixels)
    → x + n ≤ 320
    → y + i < 200
    → (q : Pixels × Pixels) × (draw_columns n row x y color i p ≡ some q)
      × ((a b : ℕ) → q.0 a b ≡ (if in_columns n (bit row) x (y + i) a b then color else p.0 a b))
unfolding draw_columns
columns_lem zero row x y color i p wide high = (
  p,
  refl,
  λ a b.
      (let none_yet : in_columns 0 (bit row) x (y + i) a b ≡ false = no_column row x (y + i) a b in
        rw none_yet refl),
)
columns_lem (suc n) row x y color i p wide high =
    let (q, run, value) = columns_lem n row x y color i p (omega (arith, wide)) high in
    let in_width : ltb (x + n) 320 ≡ true = ground (arith, wide) in
    let in_height : ltb (y + i) 200 ≡ true = ground (arith, high) in
    (
      draw_pixel (bit row n) x y color i n q,
      rw (run, in_width, in_height) refl,
      λ a b. pixel_lem n row x y color i q (p.0 a b) a b (value a b),
    )

-- The pixel is in the first `n` rows of a character, and set.
abbrev in_rows : ℕ → (ℕ → ℕ) → ℕ → ℕ → ℕ → ℕ → Bool
in_rows n rows x y a b =
    (leb y a && ltb a (y + n)) && ((leb x b && ltb b (x + 8)) && bit (rows (a - y)) (b - x))

row_lem :
    (n : ℕ) (rows : ℕ → ℕ) (x y a b color old : ℕ)
    → (if in_columns 8 (bit (rows n)) x (y + n) a b
        then color
        else (if in_rows n rows x y a b then color else old))
      ≡ (if in_rows (suc n) rows x y a b then color else old)
row_lem n rows x y a b color old = elim (Bool-cases (a == y + n)) [
  | inl here ↦
      let before : (leb y a && ltb a (y + n)) ≡ false = ground (arith, here) in
      let now : (leb y a && ltb a (y + suc n)) ≡ true = ground (arith, here) in
      let place : a - y ≡ n = ground (arith, here) in rw (here, before, now, place) refl
  | inr other ↦
      let same : (leb y a && ltb a (y + suc n)) ≡ (leb y a && ltb a (y + n)) =
        ground (arith, other) in
      rw (other, same) refl
]

rows_lem :
    (n : ℕ) (rows : ℕ → ℕ) (x y color : ℕ) (p : Pixels × Pixels)
    → x + 8 ≤ 320
    → y + n ≤ 200
    → (q : Pixels × Pixels) × (draw_rows n rows x y color p ≡ some q)
      × ((a b : ℕ) → q.0 a b ≡ (if in_rows n rows x y a b then color else p.0 a b))
unfolding draw_rows
rows_lem zero rows x y color p wide high = (
  p,
  refl,
  λ a b. (let none_yet : (leb y a && ltb a (y + 0)) ≡ false = ground arith in rw none_yet refl),
)
rows_lem (suc n) rows x y color p wide high =
    let (q, run, value) = rows_lem n rows x y color p wide (omega (arith, high)) in
    let (q', run', value') = columns_lem 8 (rows n) x y color n q wide (omega (arith, high)) in
    (q', rw run run', λ a b. value' a b ∙ (rw (value a b) (row_lem n rows x y a b color (p.0 a b))))

-- The pixel is in the 8 by 8 pixels from (x, y).
abbrev pub in_cell : ℕ → ℕ → ℕ → ℕ → Bool
in_cell x y a b = (leb y a && ltb a (y + 8)) && (leb x b && ltb b (x + 8))

nested :
    (x y a b : ℕ) (set : Bool)
    → ((leb y a && ltb a (y + 8)) && ((leb x b && ltb b (x + 8)) && set)) ≡ (in_cell x y a b && set)
nested x y a b set = and_assoc (leb y a && ltb a (y + 8)) (leb x b && ltb b (x + 8)) set

full : (j : ℕ) → j < 8 → bit 255 j ≡ true
full zero h = refl
full (suc zero) h = refl
full (suc (suc zero)) h = refl
full (suc (suc (suc zero))) h = refl
full (suc (suc (suc (suc zero)))) h = refl
full (suc (suc (suc (suc (suc zero))))) h = refl
full (suc (suc (suc (suc (suc (suc zero)))))) h = refl
full (suc (suc (suc (suc (suc (suc (suc zero))))))) h = refl
full (suc (suc (suc (suc (suc (suc (suc (suc j)))))))) h = absurd (omega (arith, h))

-- All bits of a full row.
all_set : (x y a b : ℕ) → in_rows 8 (λ i. 255) x y a b ≡ in_cell x y a b
all_set x y a b = elim (Bool-cases (leb x b && ltb b (x + 8))) [
  | inl inside ↦ rw (inside, full (b - x) (ground (arith, inside))) refl
  | inr outside ↦ rw outside refl
]

-- draw_character at a place on the canvas, with room for it in last_draw, of a character of the font, sets the pixels of the
-- character to the color, leaves all others, and keeps the place as the last one.
pub draw_character_lem :
    (font : ℕ → ℕ → ℕ) (buf : Pixels) (ch x y color : ℕ) (s : Screen)
    → x + 8 ≤ 320
    → y + 8 ≤ 200
    → length s.last_draw < 1000
    → ch < 128
    → (s' : Screen) × (draw_character font buf ch x y color s ≡ some s')
      × ((a b : ℕ)
          → s'.canvas a b
            ≡ (if in_cell x y a b && bit (font ch (a - y)) (b - x) then color else s.canvas a b))
      × (s'.last_draw ≡ s.last_draw ++ (x, y) ∷ [])
unfolding draw_character
draw_character_lem font buf ch x y color s wide high room ascii =
    let (q, run, value) = rows_lem 8 (font ch) x y color (s.canvas, buf) wide high in
    let in_font : ltb ch 128 ≡ true = ground (arith, ascii) in
    let some_room : ltb (length s.last_draw) 1000 ≡ true = ground (arith, room) in
    (
      record (draw_rect_adjust q.1 x y 8 8 (record s { canvas = q.0 })) {
        last_draw = s.last_draw ++ (x, y) ∷ [];
      },
      rw (in_font, run, some_room) refl,
      λ a b.
          value a b
          ∙ ap (λ t. if t then color else s.canvas a b)
              (nested x y a b (bit (font ch (a - y)) (b - x))),
      refl,
    )

-- clear_character at a place on the canvas sets its 8 by 8 pixels to the background.
pub clear_character_lem :
    (buf : Pixels) (x y : ℕ) (s : Screen)
    → x + 8 ≤ 320
    → y + 8 ≤ 200
    → (s' : Screen) × (clear_character buf x y s ≡ some s')
      × ((a b : ℕ) → s'.canvas a b ≡ (if in_cell x y a b then background_color else s.canvas a b))
unfolding clear_character
clear_character_lem buf x y s wide high =
    let (q, run, value) = rows_lem 8 (λ i. 255) x y background_color (s.canvas, buf) wide high in
    (
      draw_rect_adjust q.1 x y 8 8 (record s { canvas = q.0 }),
      rw run refl,
      λ a b. value a b ∙ ap (λ t. if t then background_color else s.canvas a b) (all_set x y a b),
    )
