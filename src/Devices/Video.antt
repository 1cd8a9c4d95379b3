-- ===== src/Devices/Video.antt =====
-- am/src/nemu/common/video.c: the frame buffer by pixels. An int is its 32 bits, and
-- what overflows wraps.
pub mod Laws
use nexus_am_ame.Base.{
  ℕ, zero, suc, ◌+◌, ◌-◌, ◌*◌, ◌/◌, ◌^◌, bit_and, Bool, leb, ltb, not, ◌==◌, ◌&&◌, ◌||◌, ◌%◌,
  if◌then◌else◌,
}
use nexus_am_ame.Devices.Audio.{put_bytes}
use nexus_am_ame.Words.{int_less}

abbrev pub Pixels : Type 0
Pixels = ℕ → ℕ

-- `W`, `H`, the frame buffer, and the number of writes to the sync register.
pub record Video : Type 0 where
  pub width : ℕ
  pub height : ℕ
  pub fb : Pixels
  pub syncs : ℕ

-- `_DEV_VIDEO_FBCTRL_t`
pub record FbCtrl : Type 0 where
  pub x : ℕ
  pub y : ℕ
  pub w : ℕ
  pub h : ℕ
  pub pixels : Pixels
  pub sync : Bool

-- The loop over the rows, with `p_fb` and `pixels` at `p` and `q`.
unfoldable pub copy_rows : ℕ → ℕ → ℕ → Pixels → ℕ → ℕ → Pixels → Pixels
copy_rows zero width w pixels p q fb = fb
copy_rows (suc h) width w pixels p q fb =
    copy_rows h width w pixels (p + width) (q + w) (put_bytes fb p (λ i. pixels (q + i)) w)

-- What a request leads to: the assertion halts the program, or a copy goes outside the frame buffer
-- or has a negative size, or the request is done.
pub data Outcome : Type 0 where
  halts : Outcome
  strays : Outcome
  drawn : Video → Outcome

abbrev is_negative : ℕ → Bool
is_negative a = leb (2 ^ 31) a

-- `a + b <= c`
abbrev pub int_fits : ℕ → ℕ → ℕ → Bool
int_fits a b c = not (int_less c ((a + b) % 2 ^ 32))

-- The loop copies nothing.
abbrev pub is_empty : FbCtrl → Bool
is_empty ctl = is_negative ctl.h || ((ctl.h == 0) || (ctl.w == 0))

-- `y * W + x`
abbrev pub first_pixel : FbCtrl → Video → ℕ
first_pixel ctl st = (ctl.y * st.width + ctl.x) % 2 ^ 32

-- Behind the last pixel of the last row.
abbrev pub last_end : FbCtrl → Video → ℕ
last_end ctl st = first_pixel ctl st + (ctl.h - 1) * st.width + ctl.w

abbrev pub synced : Pixels → FbCtrl → Video → Video
synced fb ctl st = record st { fb = fb; syncs = if ctl.sync then st.syncs + 1 else st.syncs }

-- `__am_video_write`
pub am_video_write : FbCtrl → Video → Outcome
am_video_write ctl st =
    let p = first_pixel ctl st in
    if not (int_fits ctl.x ctl.w st.width && int_fits ctl.y ctl.h st.height)
    then halts
    else (if is_empty ctl
        then drawn (synced st.fb ctl st)
        else (if is_negative ctl.w
              || (is_negative p || ltb (st.height * st.width) (last_end ctl st))
            then strays
            else drawn (synced (copy_rows ctl.h st.width ctl.w ctl.pixels p 0 st.fb) ctl st)))

-- `__am_video_read`: the width and the height.
abbrev pub am_video_read : Video → ℕ × ℕ
am_video_read st = (st.width, st.height)

-- `__am_vga_init`; `data` is what it reads from the device.
abbrev pub am_vga_init : ℕ → Video → Video
am_vga_init data_in st = record st { width = data_in / 2 ^ 16; height = bit_and data_in 0xffff }
