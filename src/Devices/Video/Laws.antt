-- ===== src/Devices/Video/Laws.antt =====
-- A request draws its rectangle, and nothing else.
use native.Mathlib.Nat.{suc-mul}
use nexus_am_ame.Base.{
  ◌^◌, ℕ, suc, ◌+◌, ◌-◌, ◌*◌, ◌≤◌, ◌<◌, ◌≡◌, arith, ap, ◌∙◌, ltb, leb, Bool-cases, inl, inr, ◌&&◌,
  if◌then◌else◌, Bool, ◌==◌,
}
use nexus_am_ame.Devices.Video.{Pixels, Video, FbCtrl}

abbrev pub within : ℕ → ℕ → ℕ → Bool
within start len x = leb start x && ltb x (start + len)

module _ (row col x w width : ℕ) (pixels : Pixels) (hc : col < width) (fits : x + w ≤ width) where
  abbrev at : ℕ
  at = row * width + col

  next_row :
      (h r q : ℕ) (fb : Pixels)
      → (if within x w col && within (suc r) h row
          then pixels (q + w + (row - suc r) * w + (col - x))
          else (if within x w col && (row == r) then pixels (q + (col - x)) else fb at))
        ≡ (if within x w col && within r (suc h) row
            then pixels (q + (row - r) * w + (col - x))
            else fb at)
  next_row h r q fb = elim (Bool-cases (ltb r row)) [
    | inl after ↦
        let e : row - r ≡ suc (row - suc r) = ground (arith, after) in
        let rows : (row - r) * w ≡ w + (row - suc r) * w =
          ap (λ t. t * w) e ∙ omega (arith, suc-mul (row - suc r) w) in
        ground (arith, after, rows)
    | inr not_after ↦
        let e : row - r ≡ 0 = ground (arith, not_after) in
        let rows : (row - r) * w ≡ 0 = ap (λ t. t * w) e ∙ omega arith in
        ground (arith, not_after, rows)
  ]

module _ (ctl : FbCtrl) (st : Video) (wide : st.width < 2 ^ 31) (high : st.height < 2 ^ 31)
    (small : st.height * st.width < 2 ^ 31) where
  -- What a request leaves at a pixel of the screen.
  abbrev picture : ℕ → ℕ → ℕ
  picture row col =
      if within ctl.x ctl.w col && within ctl.y ctl.h row
      then ctl.pixels ((row - ctl.y) * ctl.w + (col - ctl.x))
      else st.fb (row * st.width + col)
