-- ===== src/Klib/Stdlib/Random.antt =====
-- The generator behind rand.
use nexus_am_ame.Base.{ℕ, zero, suc, ◌%◌, ◌^◌, ◌<◌, ◌≡◌, arith, List, [], ◌∷◌, ap₂, refl}
use nexus_am_ame.Klib.Stdlib.{rand}

-- The first `n` numbers from a state.
abbrev pub rands : ℕ → ℕ → List ℕ
rands zero next = []
rands (suc n) next = (rand next).0 ∷ rands n (rand next).1

-- Every number is below 32768.
pub rand-lt : (next : ℕ) → (rand next).0 < 32768
unfolding rand
rand-lt next = omega arith

rand_low :
    (s t : ℕ)
    → s % 2 ^ 31 ≡ t % 2 ^ 31
    → ((rand s).0 ≡ (rand t).0) × ((rand s).1 % 2 ^ 31 ≡ (rand t).1 % 2 ^ 31)
unfolding rand
rand_low s t h = omega arith

-- Of the 64 bits of the state only the low 31 count: two seeds that agree in these give the same
-- numbers for ever, so the generator repeats itself after at most 2 ^ 31 calls.
pub rands_low_bits : (n s t : ℕ) → s % 2 ^ 31 ≡ t % 2 ^ 31 → rands n s ≡ rands n t
rands_low_bits zero s t h = refl
rands_low_bits (suc n) s t h =
    let (e, f) = rand_low s t h in ap₂ ◌∷◌ e (rands_low_bits n (rand s).1 (rand t).1 f)
