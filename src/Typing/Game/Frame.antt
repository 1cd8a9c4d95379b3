-- ===== src/Typing/Game/Frame.antt =====
-- A round of the main loop: all hits, at times a new letter, and a move of the letters.
use nexus_am_ame.Base.{
  ℕ, zero, suc, ◌+◌, ◌-◌, ◌/◌, ◌%◌, ◌^◌, ◌≤◌, ◌<◌, ◌≡◌, arith, refl, ◌∙◌, Bool-cases, inl, inr,
  true, false, ◌==◌, if◌then◌else◌, some, List, [], ◌∷◌, length,
}
use nexus_am_ame.Words.{int_less}
use nexus_am_ame.Typing.Keyboard.{Keys, release_key}
use nexus_am_ame.Typing.Game.{
  Game, pool_size, create_new_letter, update_letter_pos, update_keypress, press_loop, game_frame,
}
use nexus_am_ame.Typing.Game.Moves.{times}
use nexus_am_ame.Typing.Game.Refine.{IsGame, update_letter_pos_lem}
use nexus_am_ame.Typing.Game.Create.{create_new_letter_lem}
use nexus_am_ame.Typing.Game.Place.{OnCanvas, moves-OnCanvas, created-OnCanvas, shot-OnCanvas}
use nexus_am_ame.Typing.Game.Press.{is_target, shot, update_keypress_lem}

-- The letters that fall.
falling : Game → List ℕ → ℕ
falling g [] = 0
falling g (x ∷ xs) = (if int_less 0 (g.v x) then 1 else 0) + falling g xs

falling-length : (g : Game) (xs : List ℕ) → falling g xs ≤ length xs
unfolding falling
falling-length g [] = omega arith
falling-length g (x ∷ xs) = let rest = falling-length g xs in ground (arith, rest)

target_falls :
    (g : Game) (keys : Keys) (least a : ℕ)
    → is_target g keys least a ≡ true
    → int_less 0 (g.v a) ≡ true
target_falls g keys least a h = ground (arith, h)

shot_one :
    (g : Game) (u x : ℕ)
    → int_less 0 (g.v u) ≡ true
    → (if int_less 0 ((shot g u).v x) then 1 else 0) + (if u == x then 1 else 0)
      ≡ (if int_less 0 (g.v x) then 1 else 0)
shot_one g u x falls = elim (Bool-cases (x == u)) [
  | inl here ↦
      let same : x ≡ u = ground (arith, here) in
      let back : (u == x) ≡ true = ground (arith, same) in rw (here, back) (rw same (rw falls refl))
  | inr other ↦
      let back : (u == x) ≡ false = ground (arith, other) in rw (other, back) (omega arith)
]

falling-shot :
    (g : Game) (u : ℕ) (xs : List ℕ)
    → int_less 0 (g.v u) ≡ true
    → falling (shot g u) xs + times u xs ≡ falling g xs
unfolding falling
falling-shot g u [] falls = refl
falling-shot g u (x ∷ xs) falls = omega (arith, shot_one g u x falls, falling-shot g u xs falls)

press_again :
    (n : ℕ) (state : Game × Keys) (g' : Game) (keys' : Keys)
    → update_keypress state ≡ some (true, g', keys')
    → press_loop (suc n) state ≡ press_loop n (g', keys')
unfolding press_loop
press_again n state g' keys' e = rw e refl

press_done :
    (n : ℕ) (state : Game × Keys) (g' : Game) (keys' : Keys)
    → update_keypress state ≡ some (false, g', keys')
    → press_loop (suc n) state ≡ some (g', keys')
unfolding press_loop
press_done n state g' keys' e = rw e refl

press_loop_lem :
    (n : ℕ) (g : Game) (keys : Keys) (xs fs : List ℕ)
    → IsGame g xs fs
    → length xs ≤ pool_size + 1
    → falling g xs < n
    → (g' : Game) × (keys' : Keys) × (press_loop n (g, keys) ≡ some (g', keys'))
      × IsGame g' xs fs
      × (OnCanvas g xs → OnCanvas g' xs)
      × (update_keypress (g', keys') ≡ some (false, g', keys'))
press_loop_lem zero g keys xs fs game short few = absurd (omega (arith, few))
press_loop_lem (suc n) g keys xs fs game short few =
    elim (update_keypress_lem g keys xs fs game short) [
      | inl (no_more, all) ↦
          (g, keys, press_done n (g, keys) g keys no_more, game, (λ on. on), no_more)
      | inr (u, there, target, lowest, run, still) ↦
          let less = falling-shot g u xs (target_falls g keys (2 ^ 32 - 100) u target) in
          let (g', keys', runs, ended, kept, stops) =
            press_loop_lem n (shot g u) (release_key (g.text u) keys) xs fs still short
              (omega (arith, less, there, few)) in
          (
            g',
            keys',
            press_again n (g, keys) (shot g u) (release_key (g.text u) keys) run ∙ runs,
            ended,
            (λ on. kept (shot-OnCanvas g u xs on)),
            stops,
          )
    ]

frame_without :
    (frames r s t : ℕ) (state : Game × Keys) (g g' : Game) (keys : Keys)
    → (frames % (100 / 10) == 0) ≡ false
    → press_loop (pool_size + 2) state ≡ some (g, keys)
    → update_letter_pos g ≡ some g'
    → game_frame frames (r, s, t) state ≡ some (g', keys)
unfolding game_frame
frame_without frames r s t state g g' keys off hits moves = rw (hits, off, moves) refl

frame_with :
    (frames r s t : ℕ) (state : Game × Keys) (g g1 g' : Game) (keys keys' : Keys)
    → (frames % (100 / 10) == 0) ≡ true
    → press_loop (pool_size + 2) state ≡ some (g, keys)
    → create_new_letter r s t (g, keys) ≡ (g1, keys')
    → update_letter_pos g1 ≡ some g'
    → game_frame frames (r, s, t) state ≡ some (g', keys')
unfolding game_frame
frame_with frames r s t state g g1 g' keys keys' on hits made moves =
    rw (hits, on, made, moves) refl

-- From a game whose list and free nodes are in order, with a free node and at most `pool_size`
-- nodes on the screen, a round of the main loop ends: the hits come to an end, a letter may be
-- made, and the letters move. The list and the free nodes are in order again and share out the
-- same nodes; and if the letters were on the canvas, with the speed 1 or -3 and the number of a
-- letter, they are again.
pub game_frame_lem :
    (frames r s t : ℕ) (g : Game) (keys : Keys) (xs : List ℕ) (f : ℕ) (fs : List ℕ)
    → IsGame g xs (f ∷ fs)
    → length xs ≤ pool_size
    → (g' : Game) × (keys' : Keys) × (xs' : List ℕ) × (fs' : List ℕ) × (game_frame frames
          (r, s, t)
          (g, keys)
        ≡ some (g', keys'))
      × IsGame g' xs' fs'
      × ((a : ℕ) → times a xs' + times a fs' ≡ times a xs + times a (f ∷ fs))
      × (OnCanvas g xs → OnCanvas g' xs')
game_frame_lem frames r s t g keys xs f fs game short =
    let (g1, keys1, hits, game1, kept, stops) =
      press_loop_lem (pool_size + 2) g keys xs (f ∷ fs) game (omega (arith, short))
        (omega (arith, short, falling-length g xs)) in
    elim (Bool-cases (frames % (100 / 10) == 0)) [
      | inl on ↦
          let (g2, made, game2, shown) = create_new_letter_lem r s t g1 f xs fs game1 keys1 in
          let (g3, xs', fs', moves, game3, same, shown3, hits3, misses3) =
            update_letter_pos_lem g2 (f ∷ xs) fs game2 (omega (arith, short)) in
          (
            g3,
            release_key (t % 26) keys1,
            xs',
            fs',
            frame_with frames r s t (g, keys) g1 g2 g3 keys1 (release_key (t % 26) keys1) on hits
                made moves,
            game3,
            λ a. omega (arith, same a),
            λ place.
                moves-OnCanvas g2 g3 (f ∷ xs) xs' shown3
                  (created-OnCanvas g1 g2 f r t xs shown (kept place)),
          )
      | inr off ↦
          let (g3, xs', fs', moves, game3, same, shown3, hits3, misses3) =
            update_letter_pos_lem g1 xs (f ∷ fs) game1 (omega (arith, short)) in
          (
            g3,
            keys1,
            xs',
            fs',
            frame_without frames r s t (g, keys) g1 g3 keys1 off hits moves,
            game3,
            same,
            λ place. moves-OnCanvas g1 g3 xs xs' shown3 (kept place),
          )
    ]
