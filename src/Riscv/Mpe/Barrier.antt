-- ===== src/Riscv/Mpe/Barrier.antt =====
-- _barrier of mpe.c: the invariant of its variables.
use nexus_am_ame.Base.{
  ℕ, zero, suc, ◌+◌, ◌<◌, ◌≡◌, ◌≢◌, ◌⊎◌, inl, inr, sym, ap, subst, ◌∙◌, arith, Bool, true, false,
  not, ◌&&◌, ◌==◌, if◌then◌else◌, Bool-cases,
}
use nexus_am_ame.Riscv.Mpe.{Place, outside, adding, clearing, raising, waiting, Hart, World, put}
use nexus_am_ame.Riscv.Mpe.Tally.{tally, tally_same}

abbrev pub odd : ℕ → Bool
odd zero = false
odd (suc n) = not (odd n)

pub odd_next : (n : ℕ) → odd (n + 1) ≡ not (odd n)
odd_next n = let e : n + 1 ≡ suc n = omega arith in ap odd e

pub not_same : (b : Bool) → b ≢ not b
not_same true e = cc
not_same false e = cc

abbrev pub is_waiting : Place → Bool
is_waiting waiting = true
is_waiting outside = false
is_waiting adding = false
is_waiting clearing = false
is_waiting raising = false

-- The hart has added to `count` in the round that follows round `e`.
abbrev pub arrived : ℕ → Hart → Bool
arrived e x = is_waiting x.place && (x.calls == e + 1)

-- While harts arrive, when `e` rounds are over.
abbrev pub Calls : ℕ → Place → ℕ → Type 0
Calls e outside c = c ≡ e
Calls e adding c = c ≡ e + 1
Calls e waiting c = (c ≡ e + 1) ⊎ (c ≡ e)
Calls e clearing c = ⊥
Calls e raising c = ⊥

pub record Fits (e : ℕ) (x : Hart) : Type 0 where
  pub parity : x.threadsense ≡ odd x.calls
  pub calls : Calls e x.place x.calls

pub record Gathering (n e : ℕ) (s : World) : Type 0 where
  pub fits : (h : ℕ) → h < n → Fits e (s.hart h)
  pub counted : s.count ≡ tally (λ h. arrived e (s.hart h)) n
  pub few : s.count < n
  pub sense : s.sense ≡ odd e

pub record Ready (e : ℕ) (p : Place) (x : Hart) : Type 0 where
  pub place : x.place ≡ p
  pub calls : x.calls ≡ e + 1
  pub parity : x.threadsense ≡ odd (e + 1)

-- All have arrived, and `i` was the last.
pub record Led (n e : ℕ) (s : World) (i : ℕ) (p : Place) : Type 0 where
  pub inside : i < n
  pub leader : Ready e p (s.hart i)
  pub others : (h : ℕ) → h < n → h ≢ i → Ready e waiting (s.hart h)
  pub sense : s.sense ≡ odd e

pub data Inv (n e : ℕ) (s : World) : Type 0 where
  gathering : Gathering n e s → Inv n e s
  to_clear : (i : ℕ) → Led n e s i clearing → Inv n e s
  to_raise : (i : ℕ) → Led n e s i raising → s.count ≡ 0 → Inv n e s

-- A property of all harts when one has changed.
pub put_all :
    (P : Hart → Type 0) (f : ℕ → Hart) (h : ℕ) (x : Hart) (n : ℕ)
    → P x
    → ((k : ℕ) → k < n → k ≢ h → P (f k))
    → (k : ℕ) → k < n
    → P (put f h x k)
put_all P f h x n new old k lt = elim (Bool-cases (k == h)) [
  | inl e ↦ subst (λ b. P (if b then x else f k)) (sym e) new
  | inr e ↦ subst (λ b. P (if b then x else f k)) (sym e) (old k lt (ground arith))
]

-- The count when one hart has changed and has not arrived, before or after.
tally_kept :
    (n e h : ℕ) (f : ℕ → Hart) (x : Hart)
    → arrived e (f h) ≡ false
    → arrived e x ≡ false
    → tally (λ k. arrived e (f k)) n ≡ tally (λ k. arrived e (put f h x k)) n
tally_kept n e h f x before after =
    tally_same (λ k. arrived e (f k)) (λ k. arrived e (put f h x k)) n
      (λ k lt. elim (Bool-cases (k == h)) [
        | inl same ↦
            let eq : k ≡ h = ground arith in
            subst (λ t. arrived e (f t) ≡ false) (sym eq) before
            ∙ sym (subst (λ b. arrived e (if b then x else f k) ≡ false) (sym same) after)
        | inr ne ↦ sym (ap (λ b. arrived e (if b then x else f k)) ne)
      ])

-- A step of a hart that has not arrived, to a place where it has not.
pub stays-Gathering :
    (n e h : ℕ) (s t : World) (x : Hart)
    → Gathering n e s
    → arrived e (s.hart h) ≡ false
    → arrived e x ≡ false
    → Fits e x
    → t.hart ≡ put s.hart h x
    → t.count ≡ s.count
    → t.sense ≡ s.sense
    → Gathering n e t
stays-Gathering n e h s t x g before after fit th tc ts = record {
  fits =
      subst (λ f. (k : ℕ) → k < n → Fits e (f k)) (sym th)
        (put_all (Fits e) s.hart h x n fit (λ k lt ne. g.fits k lt));
  counted =
      tc
      ∙ g.counted
      ∙ tally_kept n e h s.hart x before after
      ∙ ap (λ (f : ℕ → Hart). tally (λ k. arrived e (f k)) n) (sym th);
  few = omega (arith, g.few);
  sense = ts ∙ g.sense;
}
