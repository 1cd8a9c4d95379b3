-- ===== src/Typing/Game/Steps.antt =====
-- One round of the loop of update_letter_pos, in front of the others.
use nexus_am_ame.Base.{
  ℕ, ◌+◌, ◌%◌, ◌^◌, ◌≤◌, ◌≡◌, ◌≢◌, arith, refl, sym, ap, ◌∙◌, Bool, true, false, not, ◌==◌,
  if◌then◌else◌, List, [], ◌∷◌,
}
use nexus_am_ame.Typing.Game.{Game, put, drop_letter, move_letter, is_above}
use nexus_am_ame.Typing.Game.Moves.{Chain, Free, times, AreApart, unlinked-next, Chain-prev}
use nexus_am_ame.Typing.Game.Letters.{
  letter_of, letters, moved, leaves, advance, count_hits, count_misses, letters-same, hits_stay,
  misses_stay, move_letter-other, move_letter-same,
}

-- The loop from `it`, with the node `p` before it, led from `g` to `g'`.
pub record Updated (g g' : Game) (p it : ℕ) (xs fs : List ℕ) : Type 0 where
  pub now : List ℕ
  pub now_free : List ℕ
  pub first : ℕ
  pub chain : Chain g' p first now
  pub free : Free g' g'.free_head now_free
  pub same_nodes : (a : ℕ) → times a now + times a now_free ≡ times a xs + times a fs
  pub shown : letters g' now ≡ advance (letters g xs)
  pub hits : g'.hit ≡ count_hits g.hit (letters g xs)
  pub misses : g'.miss ≡ count_misses g.miss (letters g xs)
  pub kept :
      (a : ℕ)
      → times a xs + times a fs ≡ 0
      → (letter_of g' a ≡ letter_of g a) × (g'.prev a ≡ g.prev a)
  pub kept_next : (a : ℕ) → times a xs + times a fs ≡ 0 → a ≢ p → g'.next a ≡ g.next a
  pub link : p ≢ 0 → g.next p ≡ it → g'.next p ≡ first
  pub head_first : p ≡ 0 → g.head ≡ it → g'.head ≡ first
  pub head_later : times g.head xs ≡ 0 → g'.head ≡ g.head

-- The end of the list.
pub done :
    (g : Game) (p it : ℕ) (fs : List ℕ) → it ≡ 0 → Free g g.free_head fs → Updated g g p it [] fs
unfolding letters advance count_hits count_misses
done g p it fs e free = record {
  now = [];
  now_free = fs;
  first = it;
  chain = e;
  free = free;
  same_nodes = λ a. refl;
  shown = refl;
  hits = refl;
  misses = refl;
  kept = λ a h. (refl, refl);
  kept_next = λ a h ne. refl;
  link = λ ne e. e;
  head_first = λ z e. e;
  head_later = λ h. refl;
}

module _ (g g' : Game) (p x : ℕ) (xs fs : List ℕ) (apart : AreApart (x ∷ xs) fs) (nz : x ≢ 0)
    (before : g.prev x ≡ p) where
  pub not_x : (a : ℕ) → times a (x ∷ xs) + times a fs ≡ 0 → a ≢ x
  not_x a h same = ground (arith, h, same)

  pub in_tail : (a : ℕ) → 1 ≤ times a xs → a ≢ x
  in_tail a h same = ground (arith, apart a, h, same)

  pub x_out : times x xs + times x fs ≡ 0
  x_out = ground (arith, apart x)

  not_in_tail : (a : ℕ) → times a (x ∷ xs) + times a fs ≡ 0 → times a xs + times a fs ≡ 0
  not_in_tail a h = ground (arith, h)

  tail_same : letters (move_letter x g) xs ≡ letters g xs
  tail_same = letters-same g (move_letter x g) xs (λ a h. move_letter-other g x a (in_tail a h))

  -- A letter that stays.
  pub stays :
      leaves (moved (letter_of g x)) ≡ false
      → Updated (move_letter x g) g' x (g.next x) xs fs
      → times p (x ∷ xs) + times p fs ≡ 0
      → Updated g g' p x (x ∷ xs) fs
  unfolding letters advance count_hits count_misses
  stays on u out = record {
    now = x ∷ u.now;
    now_free = u.now_free;
    first = x;
    chain = (refl, nz, (u.kept x x_out).1 ∙ before, rw (u.link nz refl) u.chain);
    free = u.free;
    same_nodes = λ a. omega (arith, u.same_nodes a);
    shown = rw (on, (u.kept x x_out).0, move_letter-same g x, u.shown, tail_same) refl;
    hits =
        u.hits
        ∙ ap (count_hits g.hit) tail_same
        ∙ sym (hits_stay (letter_of g x) g.hit (letters g xs) on);
    misses =
        u.misses
        ∙ ap (count_misses g.miss) tail_same
        ∙ sym (misses_stay (letter_of g x) g.miss (letters g xs) on);
    kept = λ a h. (
      (u.kept a (not_in_tail a h)).0 ∙ move_letter-other g x a (not_x a h),
      (u.kept a (not_in_tail a h)).1,
    );
    kept_next = λ a h ne. u.kept_next a (not_in_tail a h) (not_x a h);
    link = λ ne e. u.kept_next p (not_in_tail p out) (not_x p out) ∙ e;
    head_first = λ z e. u.head_later (ap (λ t. times t xs) e ∙ omega (arith, x_out)) ∙ e;
    head_later = λ h. u.head_later (ground (arith, h));
  }

  abbrev pub dropped : Game
  dropped = drop_letter x (g.next x) (move_letter x g)

  pub new_y : put g.y x ((g.y x + g.v x) % 2 ^ 32) x ≡ (moved (letter_of g x)).y
  new_y = ground arith

  dropped-letters : letters dropped xs ≡ letters g xs
  dropped-letters = letters-same g dropped xs (λ a h. move_letter-other g x a (in_tail a h))

  dropped-hit :
      leaves (moved (letter_of g x)) ≡ true
      → count_hits dropped.hit (letters dropped xs) ≡ count_hits g.hit (letters g (x ∷ xs))
  unfolding letters count_hits
  dropped-hit off =
      ap (count_hits dropped.hit) dropped-letters
      ∙ ap (λ h. count_hits h (letters g xs)) (rw (off, new_y) refl)

  dropped-miss :
      leaves (moved (letter_of g x)) ≡ true
      → count_misses dropped.miss (letters dropped xs) ≡ count_misses g.miss (letters g (x ∷ xs))
  unfolding letters count_misses
  dropped-miss off =
      ap (count_misses dropped.miss) dropped-letters
      ∙ ap (λ h. count_misses h (letters g xs))
          (rw (off, new_y) (turned (is_above (moved (letter_of g x)).y)))
    where
      turned :
          (b : Bool)
          → (if b then g.miss else (g.miss + 1) % 2 ^ 32)
            ≡ (if not b then (g.miss + 1) % 2 ^ 32 else g.miss)
      turned b = ground arith

  dropped-link : p ≢ 0 → p ≢ x → dropped.next p ≡ g.next x
  dropped-link ne nx =
      let some_p : (p == 0) ≡ false = ground (arith, ne) in rw (before, some_p) (ground (arith, nx))

  -- A letter that leaves.
  pub goes :
      leaves (moved (letter_of g x)) ≡ true
      → Chain g x (g.next x) xs
      → Updated dropped g' p (g.next x) xs (x ∷ fs)
      → times p (x ∷ xs) + times p fs ≡ 0
      → Updated g g' p x (x ∷ xs) fs
  unfolding letters advance
  goes off tail u out = record {
    now = u.now;
    now_free = u.now_free;
    first = u.first;
    chain = u.chain;
    free = u.free;
    same_nodes = λ a. omega (arith, u.same_nodes a);
    shown = rw off (u.shown ∙ ap advance dropped-letters);
    hits = u.hits ∙ dropped-hit off;
    misses = u.misses ∙ dropped-miss off;
    kept = λ a h. (
      (u.kept a (moved_over a h)).0 ∙ move_letter-other g x a (not_x a h),
      (u.kept a (moved_over a h)).1 ∙ Chain-prev g x a xs tail (not_later a h),
    );
    kept_next = λ a h ne.
        u.kept_next a (moved_over a h) ne
        ∙ unlinked-next g x a (not_x a h) (λ same. ne (same ∙ before));
    link = λ ne e. u.link ne (dropped-link ne (not_x p out));
    head_first = λ z e. u.head_first z (ground (arith, e));
    head_later = λ h.
        let same : dropped.head ≡ g.head = ground (arith, h) in
        u.head_later (ap (λ t. times t xs) same ∙ ground (arith, h)) ∙ same;
  }
    where
      moved_over : (a : ℕ) → times a (x ∷ xs) + times a fs ≡ 0 → times a xs + times a (x ∷ fs) ≡ 0
      moved_over a h = omega (arith, h)

      not_later : (a : ℕ) → times a (x ∷ xs) + times a fs ≡ 0 → times a xs ≡ 0
      not_later a h = omega (arith, h)
