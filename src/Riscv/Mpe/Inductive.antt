-- ===== src/Riscv/Mpe/Inductive.antt =====
-- _barrier of mpe.c: every step keeps the invariant, and what follows for the harts.
use nexus_am_ame.Base.{
  ℕ, ◌+◌, ◌-◌, ◌%◌, ◌^◌, ◌<◌, ◌≡◌, ◌≢◌, inl, inr, refl, sym, ap, subst, ◌∙◌, arith, true, false,
  ◌&&◌, ◌==◌, if◌then◌else◌, Bool-cases,
}
use nexus_am_ame.Riscv.Mpe.{
  Place, outside, adding, clearing, raising, waiting, Hart, World, put, move, add_one, atomic_add,
  clear, raise, Step, flips, adds, clears, raises, leaves, Steps, done, next, start,
}
use nexus_am_ame.Riscv.Mpe.Tally.{tally_none}
use nexus_am_ame.Riscv.Mpe.Barrier.{
  odd, odd_next, not_same, is_waiting, arrived, Calls, Fits, Gathering, Ready, Led, Inv, gathering,
  to_clear, to_raise, put_all,
}
use nexus_am_ame.Riscv.Mpe.Rounds.{
  Led-place, away, calls_at, flip_keeps, leave_keeps, others-Ready, leads, tally_add,
}

-- The hart after `_atomic_add`, by the outcome of the test.
abbrev added : World → ℕ → Place → World
added s h p = record (move h p s) { count = (s.count + 1) % 2 ^ 64 }

add_keeps :
    (n e : ℕ) (s : World) (h : ℕ)
    → h < n
    → n < 2 ^ 64
    → (s.hart h).place ≡ adding
    → Gathering n e s
    → Inv n e (add_one n h s)
unfolding add_one atomic_add
add_keeps n e s h lt small at g =
    let fit = g.fits h lt in
    let c : (s.hart h).calls ≡ e + 1 = calls_at e (s.hart h) adding fit at in
    let par : (s.hart h).threadsense ≡ odd (e + 1) = fit.parity ∙ ap odd c in
    let before = away e (s.hart h) adding at refl in
    let after : arrived e (record (s.hart h) { place = waiting }) ≡ true = ground arith in
    let more = tally_add n e h s.hart (record (s.hart h) { place = waiting }) lt before after in
    elim (Bool-cases (s.count == n - 1)) [
      | inl full ↦
          subst (λ b. Inv n e (added s h (if b then clearing else waiting))) (sym full)
            (to_clear h (
              leads n e s (added s h clearing) h clearing (record (s.hart h) { place = clearing })
                lt (record { place = refl; calls = c; parity = par })
                (others-Ready n e s h (record (s.hart h) { place = waiting }) lt g (ground arith)
                  before after)
                refl g.sense))
      | inr few ↦
          subst (λ b. Inv n e (added s h (if b then clearing else waiting))) (sym few)
            (gathering (record {
              fits =
                  put_all (Fits e) s.hart h (record (s.hart h) { place = waiting }) n
                    (record { parity = fit.parity; calls = inl c }) (λ k lk ne. g.fits k lk);
              counted = omega (arith, more, g.counted, g.few);
              few = ground (arith, g.few);
              sense = g.sense;
            }))
    ]

clear_keeps : (n e : ℕ) (s : World) (i : ℕ) → Led n e s i clearing → Inv n e (clear i s)
unfolding clear
clear_keeps n e s i led =
    to_raise i
      (leads n e s (clear i s) i raising (record (s.hart i) { place = raising }) led.inside
        (record { place = refl; calls = led.leader.calls; parity = led.leader.parity }) led.others
        refl led.sense)
      refl

-- The next round.
raise_keeps :
    (n e : ℕ) (s : World) (i : ℕ) → Led n e s i raising → s.count ≡ 0 → Inv n (e + 1) (raise i s)
unfolding raise
raise_keeps n e s i led empty =
    let x : Hart = record (s.hart i) { place = outside } in
    let in_place : (k : ℕ)
        → k < n
        → Fits (e + 1) (put s.hart i x k) × (arrived (e + 1) (put s.hart i x k) ≡ false) =
      λ k lk.
        put_all (λ y. Fits (e + 1) y × (arrived (e + 1) y ≡ false)) s.hart i x n
          (
            record {
              parity = led.leader.parity ∙ ap odd (sym led.leader.calls);
              calls = led.leader.calls;
            },
            refl,
          )
          (λ k' lk' ne. late k' (led.others k' lk' ne)) k lk in
    gathering (record {
      fits = λ k lk. (in_place k lk).0;
      counted =
          empty
          ∙ sym
              (tally_none (λ k. arrived (e + 1) (put s.hart i x k)) n (λ k lk. (in_place k lk).1));
      few = omega (arith, led.inside);
      sense = led.leader.parity;
    })
  where
    late :
        (k : ℕ)
        → Ready e waiting (s.hart k)
        → Fits (e + 1) (s.hart k) × (arrived (e + 1) (s.hart k) ≡ false)
    late k r = (
      record {
        parity = r.parity ∙ ap odd (sym r.calls);
        calls = subst (λ p. Calls (e + 1) p (s.hart k).calls) (sym r.place) (inr r.calls);
      },
      ap (λ (c : ℕ). is_waiting (s.hart k).place && (c == e + 1 + 1)) r.calls ∙ ground arith,
    )

-- A hart that leaves the loop when all have arrived would see a sense that has not been raised.
no_leave :
    (e : ℕ) (s : World) (x : Hart) → s.sense ≡ odd e → Ready e waiting x → s.sense ≢ x.threadsense
no_leave e s x sense r same = not_same (odd e) (sym sense ∙ same ∙ r.parity ∙ odd_next e)

abbrev Kept : ℕ → World → Type 0
Kept n t = (e : ℕ) × Inv n e t

clearing-Step : (n e i : ℕ) {s t : World} → Led n e s i clearing → Step n s t → Kept n t
clearing-Step n e i {s} led (flips h lt at) =
    elim (Led-place n e s i h clearing outside led lt at) [ inl (a, b) ↦ cc | inr (b, r) ↦ cc ]
clearing-Step n e i {s} led (adds h lt at) = elim (Led-place n e s i h clearing adding led lt at) [
  | inl (a, b) ↦ cc
  | inr (b, r) ↦ cc
]
clearing-Step n e i {s} led (raises h lt at) =
    elim (Led-place n e s i h clearing raising led lt at) [ inl (a, b) ↦ cc | inr (b, r) ↦ cc ]
clearing-Step n e i {s} led (leaves h lt at same) =
    elim (Led-place n e s i h clearing waiting led lt at) [
      | inl (a, b) ↦ cc
      | inr (b, r) ↦ absurd (no_leave e s (s.hart h) led.sense r same)
    ]
clearing-Step n e i {s} led (clears h lt at) =
    elim (Led-place n e s i h clearing clearing led lt at) [
      | inl (a, b) ↦ (e, subst (λ k. Inv n e (clear k s)) (sym a) (clear_keeps n e s i led))
      | inr (b, r) ↦ cc
    ]

raising-Step : (n e i : ℕ) {s t : World} → Led n e s i raising → s.count ≡ 0 → Step n s t → Kept n t
raising-Step n e i {s} led empty (flips h lt at) =
    elim (Led-place n e s i h raising outside led lt at) [ inl (a, b) ↦ cc | inr (b, r) ↦ cc ]
raising-Step n e i {s} led empty (adds h lt at) =
    elim (Led-place n e s i h raising adding led lt at) [ inl (a, b) ↦ cc | inr (b, r) ↦ cc ]
raising-Step n e i {s} led empty (clears h lt at) =
    elim (Led-place n e s i h raising clearing led lt at) [ inl (a, b) ↦ cc | inr (b, r) ↦ cc ]
raising-Step n e i {s} led empty (leaves h lt at same) =
    elim (Led-place n e s i h raising waiting led lt at) [
      | inl (a, b) ↦ cc
      | inr (b, r) ↦ absurd (no_leave e s (s.hart h) led.sense r same)
    ]
raising-Step n e i {s} led empty (raises h lt at) =
    elim (Led-place n e s i h raising raising led lt at) [
      | inl (a, b) ↦
          (e + 1, subst (λ k. Inv n (e + 1) (raise k s)) (sym a) (raise_keeps n e s i led empty))
      | inr (b, r) ↦ cc
    ]

Gathering-Step : (n e : ℕ) {s t : World} → n < 2 ^ 64 → Gathering n e s → Step n s t → Kept n t
Gathering-Step n e {s} small g (flips h lt at) = (e, gathering (flip_keeps n e s h lt at g))
Gathering-Step n e {s} small g (adds h lt at) = (e, add_keeps n e s h lt small at g)
Gathering-Step n e {s} small g (clears h lt at) =
    elim (calls_at e (s.hart h) clearing (g.fits h lt) at) [ ]
Gathering-Step n e {s} small g (raises h lt at) =
    elim (calls_at e (s.hart h) raising (g.fits h lt) at) [ ]
Gathering-Step n e {s} small g (leaves h lt at same) =
    (e, gathering (leave_keeps n e s h lt at same g))

Step-keeps : (n e : ℕ) {s t : World} → n < 2 ^ 64 → Inv n e s → Step n s t → Kept n t
Step-keeps n e small (gathering g) step = Gathering-Step n e small g step
Step-keeps n e small (to_clear i led) step = clearing-Step n e i led step
Step-keeps n e small (to_raise i led empty) step = raising-Step n e i led empty step

pub Steps-Inv : (n : ℕ) {s : World} → 0 < n → n < 2 ^ 64 → Steps n start s → (e : ℕ) × Inv n e s
Steps-Inv n some_hart small done = (
  0,
  gathering (record {
    fits = λ h lt. record { parity = refl; calls = refl };
    counted = sym (tally_none (λ h. false) n (λ k lk. refl));
    few = some_hart;
    sense = refl;
  }),
)
Steps-Inv n some_hart small (next steps step) =
    let (e, inv) = Steps-Inv n some_hart small steps in Step-keeps n e small inv step
