-- ===== src/Typing/Draw/Clear.antt =====
-- The canvas is the background but for the characters in last_draw.
use nexus_am_ame.Base.{
  ℕ, ◌+◌, ◌-◌, ◌≤◌, ◌<◌, ◌≡◌, arith, refl, sym, ap, ◌∙◌, Bool, Bool-cases, inl, inr, true, false,
  leb, ltb, ◌&&◌, ◌||◌, if◌then◌else◌, some, List, [], ◌∷◌, ◌++◌, length, length-append, ◌/◌,
}
use nexus_am_ame.Typing.Draw.{
  Pixels, Screen, background_color, draw_rect_adjust, init_screen, draw_character, clear_all,
  clear_screen,
}
use nexus_am_ame.Typing.Draw.Cells.{in_cell, draw_character_lem, clear_character_lem}

-- The pixel is in one of the characters.
abbrev pub covered : List (ℕ × ℕ) → ℕ → ℕ → Bool
covered [] a b = false
covered (cell ∷ cells) a b = in_cell cell.0 cell.1 a b || covered cells a b

-- All characters are on the canvas.
abbrev pub all_inside : List (ℕ × ℕ) → Bool
all_inside [] = true
all_inside (cell ∷ cells) = (leb (cell.0 + 8) 320 && leb (cell.1 + 8) 200) && all_inside cells

pub record IsDrawn (s : Screen) : Type 0 where
  pub inside : all_inside s.last_draw ≡ true
  pub blank :
      (a b : ℕ)
      → a < 200
      → b < 320
      → covered s.last_draw a b ≡ false
      → s.canvas a b ≡ background_color

pub covered-append :
    (cells : List (ℕ × ℕ)) (x y a b : ℕ)
    → covered (cells ++ (x, y) ∷ []) a b ≡ (covered cells a b || in_cell x y a b)
covered-append [] x y a b = ground arith
covered-append (cell ∷ cells) x y a b =
    let rest = covered-append cells x y a b in ground (arith, rest)

pub inside-append :
    (cells : List (ℕ × ℕ)) (x y : ℕ)
    → all_inside cells ≡ true
    → x + 8 ≤ 320
    → y + 8 ≤ 200
    → all_inside (cells ++ (x, y) ∷ []) ≡ true
inside-append [] x y inside wide high = ground (arith, wide, high)
inside-append (cell ∷ cells) x y inside wide high =
    let rest = inside-append cells x y (ground (arith, inside)) wide high in
    ground (arith, rest, inside)

clear_all_lem :
    (buf : Pixels) (cells : List (ℕ × ℕ)) (s : Screen)
    → all_inside cells ≡ true
    → (s' : Screen) × (clear_all buf cells s ≡ some s')
      × ((a b : ℕ) → s'.canvas a b ≡ (if covered cells a b then background_color else s.canvas a b))
unfolding clear_all
clear_all_lem buf [] s inside = (s, refl, λ a b. refl)
clear_all_lem buf ((x, y) ∷ cells) s inside =
    let (s1, run, value) =
      clear_character_lem buf x y s (ground (arith, inside)) (ground (arith, inside)) in
    let (s2, runs, values) = clear_all_lem buf cells s1 (ground (arith, inside)) in
    (
      s2,
      rw run runs,
      λ a b.
          values a b
          ∙ (rw (value a b)
              (either (in_cell x y a b) (covered cells a b) background_color (s.canvas a b))),
    )
  where
    either :
        (here later : Bool) (new old : ℕ)
        → (if later then new else (if here then new else old))
          ≡ (if here || later then new else old)
    either true true new old = refl
    either true false new old = refl
    either false true new old = refl
    either false false new old = refl

-- If all characters that were drawn are on the canvas, and all else is the background,
-- clear_screen returns, the whole canvas is the background and no character is left.
pub clear_screen_lem :
    (buf : Pixels) (s : Screen)
    → IsDrawn s
    → (s' : Screen) × (clear_screen buf s ≡ some s')
      × (s'.last_draw ≡ [])
      × ((a b : ℕ) → a < 200 → b < 320 → s'.canvas a b ≡ background_color)
unfolding clear_screen
clear_screen_lem buf s drawn =
    let (s1, run, value) = clear_all_lem buf s.last_draw s drawn.inside in
    (
      record s1 { last_draw = [] },
      rw run refl,
      refl,
      λ a b low left. elim (Bool-cases (covered s.last_draw a b)) [
        | inl on ↦ value a b ∙ (rw on refl)
        | inr off ↦ value a b ∙ (rw off (drawn.blank a b low left off))
      ],
    )

abbrev painted : ℕ → ℕ → Screen → Screen
painted screen_width screen_height s =
    let canvas : Pixels =
      λ y x. if ltb y 200 && ltb x 320 then background_color else s.canvas y x in
    draw_rect_adjust canvas 0 0 320 200 (record s {
      canvas = canvas;
      x_adjust = (screen_width - 320) / 2;
      y_adjust = (screen_height - 200) / 2;
    })

pub init_screen_lem :
    (screen_width screen_height : ℕ) (s : Screen)
    → 320 ≤ screen_width
    → 200 ≤ screen_height
    → s.last_draw ≡ []
    → (s' : Screen) × (init_screen screen_width screen_height s ≡ some s') × IsDrawn s'
unfolding init_screen
init_screen_lem screen_width screen_height s wide high none_yet =
    let is_wide : leb 320 screen_width ≡ true = ground (arith, wide) in
    let is_high : leb 200 screen_height ≡ true = ground (arith, high) in
    (
      painted screen_width screen_height s,
      rw (is_wide, is_high) refl,
      record {
        inside = rw none_yet refl;
        blank = λ a b low left off.
            (let inside : (ltb a 200 && ltb b 320) ≡ true = ground (arith, low, left) in
              rw inside refl);
      },
    )

-- One more character.
pub draw_character-IsDrawn :
    (font : ℕ → ℕ → ℕ) (buf : Pixels) (ch x y color : ℕ) (s : Screen)
    → IsDrawn s
    → x + 8 ≤ 320
    → y + 8 ≤ 200
    → length s.last_draw < 1000
    → ch < 128
    → (s' : Screen) × (draw_character font buf ch x y color s ≡ some s')
      × IsDrawn s'
      × (length s'.last_draw ≡ length s.last_draw + 1)
draw_character-IsDrawn font buf ch x y color s drawn wide high room ascii =
    let (s', run, value, kept) = draw_character_lem font buf ch x y color s wide high room ascii in
    (
      s',
      run,
      record {
        inside = rw kept (inside-append s.last_draw x y drawn.inside wide high);
        blank = λ a b low left off.
            (let split = ap (λ cells. covered cells a b) (sym kept) ∙ off in
              let parts = sym (covered-append s.last_draw x y a b) ∙ split in
              let out : in_cell x y a b ≡ false =
                second (covered s.last_draw a b) (in_cell x y a b) parts in
              let before : covered s.last_draw a b ≡ false =
                first (covered s.last_draw a b) (in_cell x y a b) parts in
              value a b ∙ (rw out (drawn.blank a b low left before)));
      },
      rw kept (length-append s.last_draw ((x, y) ∷ [])),
    )
  where
    first : (p q : Bool) → (p || q) ≡ false → p ≡ false
    first true q h = h
    first false q h = refl

    second : (p q : Bool) → (p || q) ≡ false → q ≡ false
    second true true h = h
    second true false h = refl
    second false q h = h
