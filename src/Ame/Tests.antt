-- ===== src/Ame/Tests.antt =====
-- The programs with a matrix unit that does what it is documented to do.
use nexus_am_ame.Base.{ℕ, ◌+◌, ◌*◌, ◌%◌, ◌^◌, ◌<◌, ◌≡◌, ◌↔◌, refl}
use nexus_am_ame.Ame.Pack4.{Matrices, initialize_matrices, main}
use nexus_am_ame.Ame.Pack4.Lanes.{lane_of, signed_lane}
use nexus_am_ame.Ame.Pack4.Laws.{sum, product, main_iff}

-- It unpacks the second factor and adds the product.
abbrev multiply : Matrices → Matrices
multiply ms = record ms {
  c = λ m n. (ms.c m n + sum 64 (λ k. ms.a m k * signed_lane (lane_of ms.b n k))) % 2 ^ 32;
}

main_iff_example :
    (main multiply ≡ 0)
    ↔ ((m n : ℕ) → m < 128 → n < 128 → (multiply initialize_matrices).c m n ≡ product m n)
main_iff_example = main_iff multiply (λ m k. refl) (λ n byte. refl)
