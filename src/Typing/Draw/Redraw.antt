-- ===== src/Typing/Draw/Redraw.antt =====
-- redraw_screen draws all letters and counts, and never leaves the canvas.
use nexus_am_ame.Base.{
  ℕ, zero, suc, ◌+◌, ◌-◌, ◌*◌, ◌^◌, ◌≤◌, ◌<◌, ◌≡◌, arith, refl, ap, ◌∙◌, Bool-cases, inl, inr, true,
  false, leb, ◌==◌, Option, some, ◌>>=◌, List, [], ◌∷◌, length,
}
use nexus_am_ame.Typing.Game.{Game, pool_size}
use nexus_am_ame.Typing.Game.Moves.{Chain}
use nexus_am_ame.Typing.Game.Refine.{IsGame}
use nexus_am_ame.Typing.Game.Place.{OnCanvas}
use nexus_am_ame.Typing.Draw.{
  Pixels, Screen, draw_string, itoa, draw_letters, draw_counts, redraw_screen,
}
use nexus_am_ame.Typing.Draw.Numbers.{all_ascii, itoa_lem}
use nexus_am_ame.Typing.Draw.Clear.{IsDrawn, clear_screen_lem, draw_character-IsDrawn}

-- Some characters more are drawn.
abbrev Drawn : Option Screen → Screen → ℕ → Type 0
Drawn result s n =
    (s' : Screen) × (result ≡ some s') × IsDrawn s' × (length s'.last_draw ≡ length s.last_draw + n)

no_more :
    (font : ℕ → ℕ → ℕ) (buf : Pixels) (str : List ℕ) (x y color : ℕ) (s : Screen)
    → length str ≡ 0
    → draw_string font buf str x y color s ≡ some s
unfolding draw_string
no_more font buf [] x y color s e = refl
no_more font buf (ch ∷ str) x y color s e = absurd (omega (arith, e))

-- A string that fits into its line.
draw_string_lem :
    (font : ℕ → ℕ → ℕ) (buf : Pixels) (str : List ℕ) (x y color : ℕ) (s : Screen)
    → IsDrawn s
    → all_ascii str ≡ true
    → x + length str * 8 ≤ 320
    → y + 8 ≤ 200
    → length s.last_draw + length str ≤ 1000
    → Drawn (draw_string font buf str x y color s) s (length str)
unfolding draw_string
draw_string_lem font buf [] x y color s drawn ascii fits high room = (s, refl, drawn, omega arith)
draw_string_lem font buf (ch ∷ str) x y color s drawn ascii fits high room =
    let (s1, run, drawn1, more) =
      draw_character-IsDrawn font buf ch x y color s drawn (omega (arith, fits)) high
        (omega (arith, room)) (ground (arith, ascii)) in
    elim (Bool-cases (leb 320 (x + 8))) [
      | inl full ↦
          let at_end : length str ≡ 0 = ground (arith, full, fits) in
          (
            s1,
            rw (run, full) (no_more font buf str 0 (y + 8) color s1 at_end),
            drawn1,
            omega (arith, more, at_end),
          )
      | inr fitting ↦
          let (s2, runs, drawn2, mores) =
            draw_string_lem font buf str (x + 8) y color s1 drawn1 (ground (arith, ascii))
              (omega (arith, fits)) high (omega (arith, room, more)) in
          (s2, rw (run, fitting) runs, drawn2, omega (arith, more, mores))
    ]

draw_letters_lem :
    (n : ℕ) (font : ℕ → ℕ → ℕ) (buf : Pixels) (p it : ℕ) (xs : List ℕ) (g : Game) (s : Screen)
    → length xs < n
    → Chain g p it xs
    → OnCanvas g xs
    → IsDrawn s
    → length s.last_draw + length xs ≤ 1000
    → Drawn (draw_letters n font buf it g s) s (length xs)
unfolding draw_letters
draw_letters_lem zero font buf p it xs g s short c on drawn room = absurd (omega (arith, short))
draw_letters_lem (suc n) font buf p it [] g s short c on drawn room =
    (s, rw c refl, drawn, omega arith)
draw_letters_lem (suc n) font buf p it (x ∷ xs) g s short (e, nz, before, rest) on drawn room =
    let some_x : (x == 0) ≡ false = ground (arith, nz) in
    let (wide, high, speed, letter) = on x (ground arith) in
    let (s1, run, drawn1, more) =
      draw_character-IsDrawn font buf (g.text x + 65) (g.x x) (g.y x) 0xffffffff s drawn wide high
        (omega (arith, room)) (omega (arith, letter)) in
    let (s2, runs, drawn2, mores) =
      draw_letters_lem n font buf x (g.next x) xs g s1 (omega (arith, short)) rest
        (λ a h. on a (ground (arith, h))) drawn1 (omega (arith, room, more)) in
    (s2, rw (e, some_x, run) runs, drawn2, omega (arith, more, mores))

-- A step after one that draws at most `m` characters.
abbrev DrawnUpTo : Option Screen → Screen → ℕ → Type 0
DrawnUpTo result s m = (n : ℕ) × (n ≤ m) × Drawn result s n

up_to : (result : Option Screen) (s : Screen) (m : ℕ) → Drawn result s m → DrawnUpTo result s m
up_to result s m drawn = (m, omega arith, drawn)

DrawnUpTo-then :
    (result : Option Screen) (f : Screen → Option Screen) (s : Screen) (m n : ℕ)
    → DrawnUpTo result s m
    → ((s1 : Screen)
        → IsDrawn s1
        → length s1.last_draw ≤ length s.last_draw + m
        → DrawnUpTo (f s1) s1 n)
    → DrawnUpTo (result >>= f) s (m + n)
DrawnUpTo-then result f s m n (i, low, (s1, run, drawn, more)) next =
    let (j, low', (s2, runs, drawn2, mores)) = next s1 drawn (omega (arith, low, more)) in
    (
      i + j,
      omega (arith, low, low'),
      (s2, ap (λ o. o >>= f) run ∙ runs, drawn2, omega (arith, more, mores)),
    )

-- A number at a place that depends on how many characters it takes.
DrawnUpTo-number :
    (font : ℕ → ℕ → ℕ) (buf : Pixels) (number y color : ℕ) (x : ℕ → ℕ) (s : Screen)
    → number < 2 ^ 32
    → ((n : ℕ) → n ≤ 10 → x n + n * 8 ≤ 320)
    → y + 8 ≤ 200
    → IsDrawn s
    → length s.last_draw ≤ 990
    → DrawnUpTo (itoa number >>= λ str. draw_string font buf str (x (length str)) y color s) s 10
DrawnUpTo-number font buf number y color x s word fits high drawn room =
    let (str, prints, short, ascii) = itoa_lem number word in
    let (s1, run, drawn1, more) =
      draw_string_lem font buf str (x (length str)) y color s drawn ascii (fits (length str) short)
        high (omega (arith, room, short)) in
    (
      length str,
      short,
      (
        s1,
        ap (λ o. o >>= λ str. draw_string font buf str (x (length str)) y color s) prints ∙ run,
        drawn1,
        more,
      ),
    )

-- The frames, with "FPS" behind them.
DrawnUpTo-frames :
    (font : ℕ → ℕ → ℕ) (buf : Pixels) (fps : ℕ) (s : Screen)
    → fps < 2 ^ 32
    → IsDrawn s
    → length s.last_draw ≤ 987
    → DrawnUpTo
        (itoa fps >>= λ str.
          draw_string font buf str 0 0 0xf3f781 s
          >>= draw_string font buf (70 ∷ 80 ∷ 83 ∷ []) (length str * 8) 0 0xf3f781)
        s
        13
DrawnUpTo-frames font buf fps s word drawn room =
    let (str, prints, short, ascii) = itoa_lem fps word in
    let (s1, run, drawn1, more) =
      draw_string_lem font buf str 0 0 0xf3f781 s drawn ascii (omega (arith, short)) (omega arith)
        (omega (arith, room, short)) in
    let (s2, runs, drawn2, mores) =
      draw_string_lem font buf (70 ∷ 80 ∷ 83 ∷ []) (length str * 8) 0 0xf3f781 s1 drawn1 refl
        (omega (arith, short)) (omega arith) (omega (arith, room, short, more)) in
    (
      length str + 3,
      omega (arith, short),
      (s2, rw (prints, run) runs, drawn2, omega (arith, more, mores)),
    )

counts_lem :
    (font : ℕ → ℕ → ℕ) (buf : Pixels) (key fps : ℕ) (g : Game) (s : Screen)
    → key < 2 ^ 32
    → g.hit < 2 ^ 32
    → g.miss < 2 ^ 32
    → fps < 2 ^ 32
    → IsDrawn s
    → length s.last_draw ≤ 957
    → DrawnUpTo (draw_counts font buf key fps g s) s 43
unfolding draw_counts
counts_lem font buf key fps g s keys hits misses frames drawn room =
    DrawnUpTo-then _ _ s 30 13
      (DrawnUpTo-then _ _ s 20 10
        (DrawnUpTo-then _ _ s 10 10
          (DrawnUpTo-number font buf key (200 - 8) 0xffffffff (λ n. 0) s keys
            (λ n short. omega (arith, short)) (omega arith) drawn (omega (arith, room)))
          (λ s d e.
            DrawnUpTo-number font buf g.hit 0 0x00ff00 (λ n. 320 - n * 8) s hits
              (λ n short. omega (arith, short)) (omega arith) d (omega (arith, room, e))))
        (λ s d e.
          DrawnUpTo-number font buf g.miss (200 - 8) 0xfa5858 (λ n. 320 - n * 8) s misses
            (λ n short. omega (arith, short)) (omega arith) d (omega (arith, room, e))))
      (λ s d e. DrawnUpTo-frames font buf fps s frames d (omega (arith, room, e)))

-- Let the characters that were drawn be on the canvas and all else the background, let the list and
-- the free nodes of the game be in order, with at most 957 letters, all on the canvas, with their
-- speeds and the number of a letter, and let the key, the frames, the hits and the misses be ints,
-- given as 32-bit words. Then redraw_screen returns: the loop of itoa ends within its array, for
-- each number after at most 10 characters, each index into the font is below 128, no assertion of
-- draw_character fails, and last_draw has room for all. Again the characters in last_draw are on
-- the canvas and all else is the background, so the next call can clear it.
pub redraw_screen_lem :
    (font : ℕ → ℕ → ℕ) (buf : Pixels) (key fps : ℕ) (g : Game) (xs fs : List ℕ) (s : Screen)
    → IsGame g xs fs
    → OnCanvas g xs
    → length xs ≤ 957
    → key < 2 ^ 32
    → fps < 2 ^ 32
    → g.hit < 2 ^ 32
    → g.miss < 2 ^ 32
    → IsDrawn s
    → (s' : Screen) × (redraw_screen font buf key fps g s ≡ some s') × IsDrawn s'
unfolding redraw_screen
redraw_screen_lem font buf key fps g xs fs s game on few keys frames hits misses drawn =
    let (s1, run1, empty, blank) = clear_screen_lem buf s drawn in
    let none_left : length s1.last_draw ≡ 0 = ap length empty in
    let drawn1 : IsDrawn s1 = record {
      inside = rw empty refl;
      blank = λ a b low left off. blank a b low left;
    } in
    let letters =
      draw_letters_lem (pool_size + 2) font buf 0 g.head xs g s1 (omega (arith, few)) game.shown on
        drawn1 (omega (arith, none_left, few)) in
    let (i, low, (s2, run2, drawn2, more)) =
      DrawnUpTo-then _ (draw_counts font buf key fps g) s1 (length xs) 43
        (up_to _ s1 (length xs) letters)
        (λ s d e.
          counts_lem font buf key fps g s keys hits misses frames d
            (omega (arith, none_left, few, e))) in
    (
      s2,
      ap
            (λ o.
              o
              >>= draw_letters (pool_size + 2) font buf g.head g
              >>= draw_counts font buf key fps g)
            run1
          ∙ run2,
      drawn2,
    )
