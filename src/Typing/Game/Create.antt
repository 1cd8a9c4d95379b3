-- ===== src/Typing/Game/Create.antt =====
-- create_new_letter puts one letter in front of the others.
use nexus_am_ame.Base.{
  ℕ, ◌+◌, ◌*◌, ◌/◌, ◌%◌, ◌≤◌, ◌≡◌, ◌≢◌, arith, refl, sym, ap, ◌∙◌, true, false, Bool-cases, inl,
  inr, ◌==◌, if◌then◌else◌, List, [], ◌∷◌,
}
use nexus_am_ame.Typing.Keyboard.{Keys, release_key}
use nexus_am_ame.Typing.Game.{Game, put, fly_new, fly_insert, fill_letter, create_new_letter}
use nexus_am_ame.Typing.Game.Moves.{Chain, times, AreApart, Chain-same, Free-same}
use nexus_am_ame.Typing.Game.Letters.{Letter, letter_of, letters, letters-same}
use nexus_am_ame.Typing.Game.Refine.{IsGame}

-- The letter that is made: a row of zero, a column of whole characters, and the speed 1.
abbrev pub new_letter : ℕ → ℕ → Letter
new_letter r t = record { x = r % 38 * 8 + 8; y = 0; text = t % 26; v = 1 }

-- What fly_new gives where `f` is the first free node.
abbrev taken : Game → ℕ → Game
taken g f = record g { free_head = g.next f; prev = put g.prev f 0; next = put g.next f 0 }

fly_new-taken : (g : Game) (f : ℕ) → g.free_head ≡ f → f ≢ 0 → fly_new g ≡ (f, taken g f)
unfolding fly_new
fly_new-taken g f e nz = let some_f : (f == 0) ≡ false = ground (arith, nz) in rw (e, some_f) refl

abbrev added : Game → ℕ → Game
added g f = if g.head == 0 then taken g f else fly_insert 0 g.head f (taken g f)

abbrev created : ℕ → ℕ → ℕ → Game → ℕ → Game
created r s t g f = fill_letter r s t (record (added g f) { head = f })

create-created :
    (r s t : ℕ) (g : Game) (keys : Keys) (f : ℕ)
    → g.free_head ≡ f
    → f ≢ 0
    → create_new_letter r s t (g, keys) ≡ (created r s t g f, release_key (t % 26) keys)
unfolding create_new_letter
create-created r s t g keys f e nz = rw (fly_new-taken g f e nz) refl

module _ (g : Game) (f : ℕ) where
  added-next : (added g f).next f ≡ g.head
  added-next = elim (Bool-cases (g.head == 0)) [
    | inl empty ↦ rw empty (ground (arith, empty))
    | inr one ↦ rw one (ground (arith, one))
  ]

  added-next-other : (a : ℕ) → a ≢ f → (added g f).next a ≡ g.next a
  added-next-other a ne = elim (Bool-cases (g.head == 0)) [
    | inl empty ↦ rw empty (ground (arith, ne))
    | inr one ↦ rw one (ground (arith, ne))
  ]

  added-prev : g.head ≢ f → (added g f).prev f ≡ 0
  added-prev ne = elim (Bool-cases (g.head == 0)) [
    | inl empty ↦ rw empty (ground arith)
    | inr one ↦ rw one (ground (arith, ne))
  ]

  added-prev-head : g.head ≢ 0 → (added g f).prev g.head ≡ f
  added-prev-head nz = let one : (g.head == 0) ≡ false = ground (arith, nz) in rw one (ground arith)

  added-prev-other : (a : ℕ) → a ≢ f → a ≢ g.head → (added g f).prev a ≡ g.prev a
  added-prev-other a ne nh = elim (Bool-cases (g.head == 0)) [
    | inl empty ↦ rw empty (ground (arith, ne))
    | inr one ↦ rw one (ground (arith, ne, nh))
  ]

  added-free_head : (added g f).free_head ≡ g.next f
  added-free_head = elim (Bool-cases (g.head == 0)) [
    | inl empty ↦ rw empty refl
    | inr one ↦ rw one refl
  ]

  added-letter : (a : ℕ) → letter_of (added g f) a ≡ letter_of g a
  added-letter a = elim (Bool-cases (g.head == 0)) [
    | inl empty ↦ rw empty refl
    | inr one ↦ rw one refl
  ]

module _ (r s t : ℕ) (g : Game) (f : ℕ) (xs fs : List ℕ) (game : IsGame g xs (f ∷ fs)) where
  not_f : (a : ℕ) → 1 ≤ times a xs → a ≢ f
  not_f a h same = ground (arith, game.apart a, same, h)

  -- The letters from before, behind the new node.
  behind :
      (zs : List ℕ)
      → ((a : ℕ) → times a zs ≡ times a xs)
      → Chain g 0 g.head zs
      → Chain (created r s t g f) f g.head zs
  behind [] same e = e
  behind (z ∷ zs) same (e, nz, before, rest) =
      let head_z : g.head ≢ 0 = λ null. nz (sym e ∙ null) in
      let zf : z ≢ f = not_f z (ground (arith, same z)) in
      let tail_out : (a : ℕ) → 1 ≤ times a zs → (a ≢ f) × (a ≢ g.head) = λ a h. (
        not_f a (ground (arith, same a, h)),
        λ here. ground (arith, same a, game.apart a, h, here, e),
      ) in
      (
        e,
        nz,
        ap (added g f).prev (sym e) ∙ added-prev-head g f head_z,
        rw (added-next-other g f z zf) (
            Chain-same g (created r s t g f) z (g.next z) zs
              (λ a h. (
                added-prev-other g f a (tail_out a h).0 (tail_out a h).1,
                added-next-other g f a (tail_out a h).0,
              ))
              rest),
      )

  head_not_f : g.head ≢ f
  head_not_f = by_list xs game.shown game.apart
    where
      by_list : (zs : List ℕ) → Chain g 0 g.head zs → AreApart zs (f ∷ fs) → g.head ≢ f
      by_list [] e apart same = game.unused.1 (sym same ∙ e)
      by_list (z ∷ zs) (e, nz, before, more) apart same = ground (arith, apart f, e, same)

  made-letter : letter_of (created r s t g f) f ≡ new_letter r t
  made-letter =
      let speed : s % 1000 / 2000 + 1 ≡ 1 = omega arith in
      let here : (f == f) ≡ true = ground arith in rw (here, speed) refl

  kept-letter : (a : ℕ) → 1 ≤ times a xs → letter_of (created r s t g f) a ≡ letter_of g a
  kept-letter a h =
      let off : (a == f) ≡ false = (let ne = not_f a h in ground (arith, ne)) in
      rw off (added-letter g f a)

  -- From a game whose list and free nodes are in order, create_new_letter puts the first free node
  -- in front of the list, and both are in order again. The letters are a new one, in the top row
  -- and moving down by 1 whatever rand returns, and those from before; its key counts as not
  -- pressed.
  pub create_new_letter_lem :
      (keys : Keys)
      → (g' : Game) × (create_new_letter r s t (g, keys) ≡ (g', release_key (t % 26) keys))
        × IsGame g' (f ∷ xs) fs
        × (letters g' (f ∷ xs) ≡ new_letter r t ∷ letters g xs)
  unfolding letters
  create_new_letter_lem keys = (
    created r s t g f,
    create-created r s t g keys f game.unused.0 game.unused.1,
    record {
      shown = (
        refl,
        game.unused.1,
        added-prev g f head_not_f,
        rw (added-next g f) (behind xs (λ a. refl) game.shown),
      );
      unused = rw (added-free_head g f) (
          Free-same g (created r s t g f) (g.next f) fs
            (λ a h. added-next-other g f a (λ same. ground (arith, game.apart a, same, h)))
            game.unused.2);
      apart = λ a. omega (arith, game.apart a);
    },
    rw (made-letter, letters-same g (created r s t g f) xs kept-letter) refl,
  )
