-- ===== src/Typing/Game/Refine.antt =====
-- update_letter_pos moves every letter of the list and takes those off that leave the screen.
use nexus_am_ame.Base.{
  ℕ, zero, suc, ◌+◌, ◌≤◌, ◌<◌, ◌≡◌, ◌≢◌, arith, refl, ap, ◌∙◌, subst, Bool, true, false, Bool-cases,
  inl, inr, ◌==◌, ◌||◌, if◌then◌else◌, List, [], ◌∷◌, length, some,
}
use nexus_am_ame.Typing.Game.{
  Game, pool_size, update_letter_pos, drop_letter, move_letter, update_one, update_loop, is_above,
  is_below,
}
use nexus_am_ame.Typing.Game.Moves.{
  Chain, Free, times, AreApart, Chain-same, Free-same, unlinked, Chain-unlinked, Free-unlinked,
}
use nexus_am_ame.Typing.Game.Letters.{
  letter_of, letters, moved, leaves, advance, count_hits, count_misses,
}
use nexus_am_ame.Typing.Game.Steps.{Updated, done, x_out, new_y, stays, dropped, goes}

module _ (g : Game) (p x : ℕ) (xs fs : List ℕ) (apart : AreApart (x ∷ xs) fs) (nz : x ≢ 0)
    (before : g.prev x ≡ p) where
  dropped-Chain :
      Chain g x (g.next x) xs
      → times p xs ≡ 0
      → Chain (dropped g g p x xs fs apart nz before) p (g.next x) xs
  dropped-Chain tail out =
      subst (λ t. Chain (dropped g g p x xs fs apart nz before) t (g.next x) xs) before
        (Chain-same (unlinked x g) (dropped g g p x xs fs apart nz before) (g.prev x) (g.next x) xs
          (λ a h. (refl, refl))
          (Chain-unlinked g x xs fs apart (ap (λ t. times t xs) before ∙ out) tail))

  dropped-Free :
      Free g g.free_head fs
      → times p fs ≡ 0
      → Free (dropped g g p x xs fs apart nz before) x (x ∷ fs)
  dropped-Free free out =
      Free-same (unlinked x g) (dropped g g p x xs fs apart nz before) x (x ∷ fs) (λ a h. refl)
        (Free-unlinked g x fs nz (ground (arith, apart x)) (ap (λ t. times t fs) before ∙ out) free)

update_loop_lem :
    (n : ℕ) (g : Game) (p it : ℕ) (xs fs : List ℕ)
    → length xs < n
    → Chain g p it xs
    → Free g g.free_head fs
    → AreApart xs fs
    → times p xs + times p fs ≡ 0
    → (g' : Game) × (update_loop n it g ≡ some g') × Updated g g' p it xs fs
unfolding update_loop
update_loop_lem zero g p it xs fs short chain free apart out = absurd (omega arith)
update_loop_lem (suc n) g p it [] fs short chain free apart out =
    (g, rw chain refl, done g p it fs chain free)
update_loop_lem (suc n) g p it (x ∷ xs) fs short (e, nz, before, tail) free apart out =
    let some_x : (x == 0) ≡ false = ground (arith, nz) in
    let round : (b : Bool)
        → leaves (moved (letter_of g x)) ≡ b
        → update_one x g
          ≡ (if b then drop_letter x (g.next x) (move_letter x g) else move_letter x g) =
      λ b left.
        ap (λ c. if c then drop_letter x (g.next x) (move_letter x g) else move_letter x g)
          (ap (λ t. is_above t || is_below t) (new_y g g p x xs fs apart nz before) ∙ left) in
    let xo = x_out g g p x xs fs apart nz before in
    elim (Bool-cases (leaves (moved (letter_of g x)))) [
      | inl off ↦
          let (g', run, u) =
            update_loop_lem n (dropped g g p x xs fs apart nz before) p (g.next x) xs (x ∷ fs)
              (omega (arith, short))
              (dropped-Chain g p x xs fs apart nz before tail (omega (arith, out)))
              (dropped-Free g p x xs fs apart nz before free (omega (arith, out)))
              (λ a. omega (arith, apart a)) (omega (arith, out)) in
          rw (e, some_x)
            (
              g',
              ap (update_loop n (g.next x)) (round true off) ∙ run,
              goes g g' p x xs fs apart nz before off tail u out,
            )
      | inr on ↦
          let (g', run, u) =
            update_loop_lem n (move_letter x g) x (g.next x) xs fs (omega (arith, short))
              (Chain-same g (move_letter x g) x (g.next x) xs (λ a h. (refl, refl)) tail)
              (Free-same g (move_letter x g) g.free_head fs (λ a h. refl) free)
              (λ a. omega (arith, apart a)) xo in
          rw (e, some_x)
            (
              g',
              ap (update_loop n (g.next x)) (round false on) ∙ run,
              stays g g' p x xs fs apart nz before on u out,
            )
    ]

-- The letters on the screen are the nodes `xs` from `head`, and the nodes `fs` are free.
pub record IsGame (g : Game) (xs fs : List ℕ) : Type 0 where
  pub shown : Chain g 0 g.head xs
  pub unused : Free g g.free_head fs
  pub apart : AreApart xs fs

pub not_null : (g : Game) (p it : ℕ) (xs : List ℕ) → Chain g p it xs → times 0 xs ≡ 0
not_null g p it [] c = refl
not_null g p it (x ∷ xs) (e, nz, before, rest) =
    let more = not_null g x (g.next x) xs rest in ground (arith, more, nz)

pub not_null_free : (g : Game) (it : ℕ) (fs : List ℕ) → Free g it fs → times 0 fs ≡ 0
not_null_free g it [] c = refl
not_null_free g it (x ∷ xs) (e, nz, rest) =
    let more = not_null_free g (g.next x) xs rest in ground (arith, more, nz)

-- From a game whose list and free nodes are in order, with at most one node more on the screen
-- than `pool_size`, update_letter_pos returns, and the list and the free nodes are in order again
-- and share out the same nodes. The letters are those from before, in their order, each moved by
-- its speed, without those that then are off the screen; `hit` and `miss` count these.
pub update_letter_pos_lem :
    (g : Game) (xs fs : List ℕ)
    → IsGame g xs fs
    → length xs ≤ pool_size + 1
    → (g' : Game) × (xs' : List ℕ) × (fs' : List ℕ) × (update_letter_pos g ≡ some g')
      × IsGame g' xs' fs'
      × ((a : ℕ) → times a xs' + times a fs' ≡ times a xs + times a fs)
      × (letters g' xs' ≡ advance (letters g xs))
      × (g'.hit ≡ count_hits g.hit (letters g xs))
      × (g'.miss ≡ count_misses g.miss (letters g xs))
unfolding update_letter_pos
update_letter_pos_lem g xs fs game short =
    let null_out : times 0 xs + times 0 fs ≡ 0 =
      omega
        (arith, not_null g 0 g.head xs game.shown, not_null_free g g.free_head fs game.unused) in
    let (g', run, u) =
      update_loop_lem (pool_size + 2) g 0 g.head xs fs (omega (arith, short)) game.shown game.unused
        game.apart null_out in
    (
      g',
      u.now,
      u.now_free,
      run,
      record {
        shown = rw (u.head_first refl refl) u.chain;
        unused = u.free;
        apart = λ a. omega (arith, u.same_nodes a, game.apart a);
      },
      u.same_nodes,
      u.shown,
      u.hits,
      u.misses,
    )
