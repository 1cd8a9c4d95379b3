-- ===== src/Riscv/Mpe/Safety.antt =====
-- _barrier of mpe.c: nobody gets ahead of it, and it never blocks all harts.
use nexus_am_ame.Base.{
  ℕ, ◌+◌, ◌-◌, ◌^◌, ◌≤◌, ◌<◌, ◌≡◌, ◌≢◌, inl, inr, refl, sym, ap, subst, ◌∙◌, arith, false, ◌&&◌,
  ◌==◌,
}
use nexus_am_ame.Riscv.Mpe.{
  Place, outside, adding, clearing, raising, waiting, Hart, World, move, add_one, clear, raise,
  Step, adds, clears, raises, leaves, Steps, start,
}
use nexus_am_ame.Riscv.Mpe.Tally.{not_all}
use nexus_am_ame.Riscv.Mpe.Barrier.{
  odd, is_waiting, arrived, Calls, Gathering, Ready, Led, Inv, gathering, to_clear, to_raise,
}
use nexus_am_ame.Riscv.Mpe.Inductive.{Steps-Inv}
use native.Mathlib.Decide.{ℕ_discrete}

-- The number of calls that have returned.
-- The number of calls that have returned, by the place of the hart and its calls.
abbrev pub returns : Place → ℕ → ℕ
returns outside c = c
returns adding c = c - 1
returns clearing c = c - 1
returns raising c = c - 1
returns waiting c = c - 1

between : (e c : ℕ) (p : Place) → Calls e p c → (returns p c ≤ e) × (e ≤ c)
between e c outside h = (omega arith, omega arith)
between e c adding h = (omega arith, omega arith)
between e c waiting (inl h) = (omega arith, omega arith)
between e c waiting (inr h) = (omega arith, omega arith)
between e c clearing h = elim h [ ]
between e c raising h = elim h [ ]

Ready-between :
    (e : ℕ) (p : Place) (x : Hart)
    → Ready e p x
    → p ≢ outside
    → (returns x.place x.calls ≤ e) × (e ≤ x.calls)
Ready-between e p x r ne =
    subst (λ q. (returns q x.calls ≤ e) × (e ≤ x.calls)) (sym r.place) (at p ne)
  where
    at : (q : Place) → q ≢ outside → (returns q x.calls ≤ e) × (e ≤ x.calls)
    at outside h = absurd (h refl)
    at adding h = (omega (arith, r.calls), omega (arith, r.calls))
    at clearing h = (omega (arith, r.calls), omega (arith, r.calls))
    at raising h = (omega (arith, r.calls), omega (arith, r.calls))
    at waiting h = (omega (arith, r.calls), omega (arith, r.calls))

Led-between :
    (n e : ℕ) (s : World) (i : ℕ) (p : Place)
    → p ≢ outside
    → Led n e s i p
    → (h : ℕ) → h < n
    → (returns (s.hart h).place (s.hart h).calls ≤ e) × (e ≤ (s.hart h).calls)
Led-between n e s i p ne led h lt = elim (ℕ_discrete h i) [
  | yes eq ↦
      subst (λ k. (returns (s.hart k).place (s.hart k).calls ≤ e) × (e ≤ (s.hart k).calls)) (sym eq)
        (Ready-between e p (s.hart i) led.leader ne)
  | no other ↦ Ready-between e waiting (s.hart h) (led.others h lt other) (λ k. cc)
]

Inv-between :
    (n e : ℕ) (s : World)
    → Inv n e s
    → (h : ℕ) → h < n
    → (returns (s.hart h).place (s.hart h).calls ≤ e) × (e ≤ (s.hart h).calls)
Inv-between n e s (gathering g) h lt =
    between e (s.hart h).calls (s.hart h).place (g.fits h lt).calls
Inv-between n e s (to_clear i led) h lt = Led-between n e s i clearing (λ k. cc) led h lt
Inv-between n e s (to_raise i led empty) h lt = Led-between n e s i raising (λ k. cc) led h lt

-- In every state that the harts reach, no hart has returned from more calls of _barrier than any
-- other hart has begun: nobody passes a barrier that another has not come to.
pub barrier_waits :
    (n : ℕ) {s : World} (i j : ℕ)
    → 0 < n
    → n < 2 ^ 64
    → Steps n start s
    → i < n
    → j < n
    → returns (s.hart i).place (s.hart i).calls ≤ (s.hart j).calls
barrier_waits n {s} i j some_hart small steps li lj =
    let (e, inv) = Steps-Inv n some_hart small steps in
    let first = (Inv-between n e s inv i li).0 in
    let second = (Inv-between n e s inv j lj).1 in omega arith

abbrev Moves : ℕ → World → Type 0
Moves n s = (t : World) × Step n s t

-- A hart that has not arrived, by its place.
can_move :
    (n e : ℕ) (s : World) (h : ℕ) (p : Place)
    → h < n
    → Gathering n e s
    → (s.hart h).place ≢ outside
    → arrived e (s.hart h) ≡ false
    → (s.hart h).place ≡ p
    → Moves n s
can_move n e s h outside lt g inside late at = absurd (inside at)
can_move n e s h adding lt g inside late at = (add_one n h s, adds h lt at)
can_move n e s h clearing lt g inside late at = (clear h s, clears h lt at)
can_move n e s h raising lt g inside late at = (raise h s, raises h lt at)
can_move n e s h waiting lt g inside late at =
    let fit = g.fits h lt in
    elim (subst (λ q. Calls e q (s.hart h).calls) at fit.calls) [
      | inl c ↦
          let seen : arrived e (s.hart h) ≡ (is_waiting waiting && ((s.hart h).calls == e + 1)) =
            ap (λ q. is_waiting q && ((s.hart h).calls == e + 1)) at in
          ground arith
      | inr c ↦ (move h outside s, leaves h lt at (g.sense ∙ ap odd (sym c) ∙ sym fit.parity))
    ]

-- Whenever all harts are in a call of _barrier, one of them can take a step.
pub barrier_moves :
    (n : ℕ) {s : World}
    → 0 < n
    → n < 2 ^ 64
    → Steps n start s
    → ((h : ℕ) → h < n → (s.hart h).place ≢ outside)
    → (t : World) × Step n s t
barrier_moves n {s} some_hart small steps inside = from_inv (Steps-Inv n some_hart small steps)
  where
    from_inv : (e : ℕ) × Inv n e s → Moves n s
    from_inv (e, gathering g) =
        let (h, lt, late) =
          not_all (λ k. arrived e (s.hart k)) n (omega (arith, g.counted, g.few)) in
        can_move n e s h (s.hart h).place lt g (inside h lt) late refl
    from_inv (e, to_clear i led) = (clear i s, clears i led.inside led.leader.place)
    from_inv (e, to_raise i led empty) = (raise i s, raises i led.inside led.leader.place)
