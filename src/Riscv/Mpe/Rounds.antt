-- ===== src/Riscv/Mpe/Rounds.antt =====
-- _barrier of mpe.c: the steps of single harts under the invariant.
use nexus_am_ame.Base.{
  ℕ, ◌+◌, ◌<◌, ◌≡◌, ◌≢◌, ◌⊎◌, inl, inr, refl, sym, ap, subst, ◌∙◌, arith, Bool, true, false, not,
  ◌&&◌, ◌==◌, if◌then◌else◌, &&-both,
}
use nexus_am_ame.Riscv.Mpe.{
  Place, outside, adding, clearing, raising, waiting, Hart, World, put, move, flip,
}
use nexus_am_ame.Riscv.Mpe.Tally.{tally, tally_more, tally_full}
use nexus_am_ame.Riscv.Mpe.Barrier.{
  odd, odd_next, not_same, is_waiting, arrived, Calls, Fits, Gathering, Ready, Led, stays-Gathering,
}
use native.Mathlib.Decide.{ℕ_discrete}

-- Nobody else but the leader moves: where a hart is that may step.
pub Led-place :
    (n e : ℕ) (s : World) (i h : ℕ) (p q : Place)
    → Led n e s i p
    → h < n
    → (s.hart h).place ≡ q
    → ((h ≡ i) × (q ≡ p)) ⊎ ((q ≡ waiting) × Ready e waiting (s.hart h))
Led-place n e s i h p q led lt at = elim (ℕ_discrete h i) [
  | yes eq ↦ inl (eq, sym at ∙ ap (λ t. (s.hart t).place) eq ∙ led.leader.place)
  | no ne ↦ let r = led.others h lt ne in inr (sym at ∙ r.place, r)
]

pub away : (e : ℕ) (x : Hart) (p : Place) → x.place ≡ p → is_waiting p ≡ false → arrived e x ≡ false
away e x p at no_wait =
    subst (λ q. (is_waiting q && (x.calls == e + 1)) ≡ false) (sym at) (ground arith)

pub calls_at : (e : ℕ) (x : Hart) (p : Place) → Fits e x → x.place ≡ p → Calls e p x.calls
calls_at e x p fit at = subst (λ q. Calls e q x.calls) at fit.calls

pub flip_keeps :
    (n e : ℕ) (s : World) (h : ℕ)
    → h < n
    → (s.hart h).place ≡ outside
    → Gathering n e s
    → Gathering n e (flip h s)
unfolding flip
flip_keeps n e s h lt at g =
    let fit = g.fits h lt in
    let c = calls_at e (s.hart h) outside fit at in
    stays-Gathering n e h s (flip h s) _ g (away e (s.hart h) outside at refl) refl
      (record {
        parity = ap not fit.parity ∙ sym (odd_next (s.hart h).calls);
        calls = ap (λ (k : ℕ). k + 1) c;
      })
      refl refl refl

-- A waiting hart that sees its own sense was released by an earlier round.
released : (e c : ℕ) (b t : Bool) → b ≡ odd e → t ≡ odd c → b ≡ t → (c ≡ e + 1) ⊎ (c ≡ e) → c ≡ e
released e c b t be tc same (inr k) = k
released e c b t be tc same (inl k) =
    absurd (not_same (odd e) (sym be ∙ same ∙ tc ∙ ap odd k ∙ odd_next e))

pub leave_keeps :
    (n e : ℕ) (s : World) (h : ℕ)
    → h < n
    → (s.hart h).place ≡ waiting
    → s.sense ≡ (s.hart h).threadsense
    → Gathering n e s
    → Gathering n e (move h outside s)
leave_keeps n e s h lt at same g =
    let fit = g.fits h lt in
    let c =
      released e (s.hart h).calls s.sense (s.hart h).threadsense g.sense fit.parity same
        (calls_at e (s.hart h) waiting fit at) in
    stays-Gathering n e h s (move h outside s) _ g (ground arith) refl
      (record { parity = fit.parity; calls = c }) refl refl refl

waits : (p : Place) → is_waiting p ≡ true → p ≡ waiting
waits waiting e = refl
waits outside e = cc
waits adding e = cc
waits clearing e = cc
waits raising e = cc

arrived-Ready : (e : ℕ) (x : Hart) → arrived e x ≡ true → Fits e x → Ready e waiting x
arrived-Ready e x at fit =
    let (w, c) = &&-both (is_waiting x.place) (x.calls == e + 1) at in
    let calls : x.calls ≡ e + 1 = ground arith in
    record { place = waits x.place w; calls = calls; parity = fit.parity ∙ ap odd calls }

put_self : (f : ℕ → Hart) (h : ℕ) (x : Hart) → put f h x h ≡ x
put_self f h x = let e : (h == h) ≡ true = ground arith in ap (λ b. if b then x else f h) e

put_other : (f : ℕ → Hart) (h : ℕ) (x : Hart) (k : ℕ) → (k == h) ≡ false → put f h x k ≡ f k
put_other f h x k ne = ap (λ b. if b then x else f k) ne

-- The count when one more hart has arrived.
pub tally_add :
    (n e h : ℕ) (f : ℕ → Hart) (x : Hart)
    → h < n
    → arrived e (f h) ≡ false
    → arrived e x ≡ true
    → tally (λ k. arrived e (put f h x k)) n ≡ tally (λ k. arrived e (f k)) n + 1
tally_add n e h f x lt before after =
    tally_more (λ k. arrived e (f k)) (λ k. arrived e (put f h x k)) n h lt before
      (ap (arrived e) (put_self f h x) ∙ after)
      (λ k lk ne. sym (ap (arrived e) (put_other f h x k ne)))

-- Where the count is full but for `h`, all others have arrived.
pub others-Ready :
    (n e : ℕ) (s : World) (h : ℕ) (x : Hart)
    → h < n
    → Gathering n e s
    → s.count + 1 ≡ n
    → arrived e (s.hart h) ≡ false
    → arrived e x ≡ true
    → (k : ℕ) → k < n
    → k ≢ h
    → Ready e waiting (s.hart k)
others-Ready n e s h x lt g full before after k lk ne =
    let all = tally_add n e h s.hart x lt before after in
    let at =
      tally_full (λ k. arrived e (put s.hart h x k)) n (omega (arith, all, g.counted)) k lk in
    let other : (k == h) ≡ false = ground arith in
    arrived-Ready e (s.hart k) (sym (ap (arrived e) (put_other s.hart h x k other)) ∙ at)
      (g.fits k lk)

-- `leader` is at `p`, and nobody else has moved.
pub leads :
    (n e : ℕ) (s t : World) (h : ℕ) (p : Place) (x : Hart)
    → h < n
    → Ready e p x
    → ((k : ℕ) → k < n → k ≢ h → Ready e waiting (s.hart k))
    → t.hart ≡ put s.hart h x
    → t.sense ≡ odd e
    → Led n e t h p
leads n e s t h p x lt ready others th ts = record {
  inside = lt;
  leader = subst (Ready e p) (sym (ap (λ (f : ℕ → Hart). f h) th ∙ put_self s.hart h x)) ready;
  others = λ k lk ne.
      let other : (k == h) ≡ false = ground arith in
      subst (Ready e waiting) (sym (ap (λ (f : ℕ → Hart). f k) th ∙ put_other s.hart h x k other))
        (others k lk ne);
  sense = ts;
}
