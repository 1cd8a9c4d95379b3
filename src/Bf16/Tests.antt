-- ===== src/Bf16/Tests.antt =====
-- Conversions of some floats, and the theorems there.
use nexus_am_ame.Base.{ℕ, ◌+◌, ◌/◌, ◌%◌, ◌^◌, ◌<◌, ◌≤◌, ◌≡◌, ◌⊎◌, arith, refl, true}
use nexus_am_ame.Bf16.{float_to_bf16_soft_rm, is_nan}
use nexus_am_ame.Bf16.Rounding.{magnitude, Down, Up, Nearest, float_to_bf16_soft_rm-Nearest}

-- The tie above 0x3f81.
abbrev tie : ℕ
tie = 0x3f81_8000

rounds_up : float_to_bf16_soft_rm tie 0 ≡ 0x3f82
unfolding float_to_bf16_soft_rm
rounds_up = refl

float_to_bf16_soft_rm-Nearest_example :
    ((rm : ℕ) → float_to_bf16_soft_rm tie rm / 2 ^ 15 ≡ 0)
    × (Nearest (magnitude (float_to_bf16_soft_rm tie 0)) tie
        × (((magnitude (float_to_bf16_soft_rm tie 0) < tie + 2 ^ 15)
              × (tie < magnitude (float_to_bf16_soft_rm tie 0) + 2 ^ 15))
            ⊎ (float_to_bf16_soft_rm tie 0 % 2 ≡ 0)))
    × Down (magnitude (float_to_bf16_soft_rm tie 1)) tie
    × (((tie / 2 ^ 31 ≡ 0) × Down (magnitude (float_to_bf16_soft_rm tie 2)) tie)
        ⊎ ((tie / 2 ^ 31 ≡ 1) × Up (magnitude (float_to_bf16_soft_rm tie 2)) tie))
    × (((tie / 2 ^ 31 ≡ 0) × Up (magnitude (float_to_bf16_soft_rm tie 3)) tie)
        ⊎ ((tie / 2 ^ 31 ≡ 1) × Down (magnitude (float_to_bf16_soft_rm tie 3)) tie))
    × ((magnitude (float_to_bf16_soft_rm tie 4) ≤ tie + 2 ^ 15)
        × (tie < magnitude (float_to_bf16_soft_rm tie 4) + 2 ^ 15))
float_to_bf16_soft_rm-Nearest_example =
    float_to_bf16_soft_rm-Nearest tie (omega arith) (omega arith)

one_nan : is_nan 0x7f80_0001 ≡ true
unfolding is_nan
one_nan = refl
