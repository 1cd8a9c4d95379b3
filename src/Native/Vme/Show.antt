-- ===== src/Native/Vme/Show.antt =====
-- The second loop of __am_switch: the pages of the new space come to the host.
use nexus_am_ame.Base.{
  ℕ, zero, suc, ◌+◌, ◌≤◌, ◌<◌, ◌≡◌, arith, refl, ap, ◌∙◌, Bool-cases, inl, inr, true, false, ◌==◌,
  if◌then◌else◌, some, List, [], ◌∷◌, length,
}
use nexus_am_ame.Native.Vme.{
  World, mmap, mmap_prot, offset, pmem_map, set_mapped, in_user_space, map_all,
}
use nexus_am_ame.Native.Vme.Lists.{Chain, times, count_va, lookup}
use nexus_am_ame.Native.Vme.Host.{mapped_at}
use nexus_am_ame.Native.Vme.Kept.{
  Kept, Kept-refl, Kept-trans, Chain-Kept, lookup-Kept, count_va-Kept, set_mapped-Kept, calls-Kept,
}

-- One round of map_all.
abbrev shown_one : ℕ → World → World
shown_one p w = set_mapped p true (pmem_map (w.nodes p).va (w.nodes p).pa (w.nodes p).prot w)

shown_one-Kept : (p : ℕ) (w : World) → Kept w (shown_one p w)
shown_one-Kept p w =
    let m = w.nodes p in
    let called = mmap m.va (mmap_prot m.prot) (offset m.pa) ∷ w.calls in
    Kept-trans w (record w { calls = called }) (shown_one p w) (calls-Kept w called)
      (set_mapped-Kept (record w { calls = called }) p true)

shown_one-marked :
    (p : ℕ) (w : World) (a : ℕ)
    → (w.nodes a).is_mapped ≡ true
    → ((shown_one p w).nodes a).is_mapped ≡ true
shown_one-marked p w a marked = elim (Bool-cases (a == p)) [
  | inl here ↦ rw here refl
  | inr other ↦ rw other marked
]

pub record Mapped (w w' : World) (ys : List ℕ) : Type 0 where
  pub kept : Kept w w'
  pub host :
      (a : ℕ)
      → mapped_at w'.calls a
        ≡ (if count_va w.nodes a ys == 0 then mapped_at w.calls a else lookup w.nodes ys a)
  pub marked : (x : ℕ) → 1 ≤ times x ys → (w'.nodes x).is_mapped ≡ true
  pub still : (x : ℕ) → (w.nodes x).is_mapped ≡ true → (w'.nodes x).is_mapped ≡ true

Mapped-step :
    (w w' : World) (y : ℕ) (ys : List ℕ)
    → ((a : ℕ) → count_va w.nodes a (y ∷ ys) ≤ 1)
    → Mapped (shown_one y w) w' ys
    → Mapped w w' (y ∷ ys)
Mapped-step w w' y ys distinct m =
    let k = shown_one-Kept y w in
    record {
      kept = Kept-trans w (shown_one y w) w' k m.kept;
      host = λ a.
          m.host a
          ∙ (rw (count_va-Kept w (shown_one y w) ys a k, lookup-Kept w (shown_one y w) ys a k)
              (elim (Bool-cases (a == (w.nodes y).va)) [
                | inl here ↦
                    let once : (count_va w.nodes a ys == 0) ≡ true =
                      (let d = distinct a in ground (arith, here, d)) in
                    let more : (1 + count_va w.nodes a ys == 0) ≡ false = ground arith in
                    rw (here, once, more) refl
                | inr other ↦
                    let same : (0 + count_va w.nodes a ys == 0) ≡ (count_va w.nodes a ys == 0) =
                      ap (λ t. t == 0) (omega arith) in
                    rw (other, same) refl
              ]));
      marked = λ x h. elim (Bool-cases (x == y)) [
        | inl here ↦ m.still x (rw here refl)
        | inr other ↦ m.marked x (ground (arith, h, other))
      ];
      still = λ x h. m.still x (shown_one-marked y w x h);
    }

pub map_all_lem :
    (n p : ℕ) (w : World) (ys : List ℕ)
    → length ys < n
    → Chain w.nodes p ys
    → ((a : ℕ) → count_va w.nodes a ys ≤ 1)
    → ((x : ℕ) → 1 ≤ times x ys → in_user_space (w.nodes x).va ≡ true)
    → (w' : World) × (map_all n p w ≡ some w') × Mapped w w' ys
unfolding map_all
map_all_lem zero p w ys short c distinct user = absurd (omega (arith, short))
map_all_lem (suc n) p w [] short c distinct user = (
  w,
  rw c refl,
  record {
    kept = Kept-refl w;
    host = λ a. refl;
    marked = λ x h. absurd (omega (arith, h));
    still = λ x h. h;
  },
)
map_all_lem (suc n) p w (y ∷ ys) short (e, nz, rest) distinct user =
    let some_y : (y == 0) ≡ false = ground (arith, nz) in
    let k = shown_one-Kept y w in
    let w1 = shown_one y w in
    let (w', run, m) =
      map_all_lem n (w1.nodes y).next w1 ys (omega (arith, short))
        (rw (k.next y) (Chain-Kept w w1 (w.nodes y).next ys k rest))
        (λ a. rw (count_va-Kept w w1 ys a k) (let d = distinct a in ground (arith, d)))
        (λ x h. rw (k.va x) (user x (ground (arith, h)))) in
    (w', rw (e, some_y, user y (ground arith)) run, Mapped-step w w' y ys distinct m)
