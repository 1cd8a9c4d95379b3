-- ===== src/Devices/Io.antt =====
-- libs/klib/src/io.c over the drivers: what the programs call.
use nexus_am_ame.Base.{ℕ, bit_or, true, false, if◌then◌else◌}
use nexus_am_ame.Devices.Timer.{read_uptime, read_date, Date}
use nexus_am_ame.Devices.Input.{KeyEvent}
use nexus_am_ame.Devices.Video.{Pixels, Video, Outcome, am_video_read, am_video_write}

-- `uptime`
pub uptime : ℕ → ℕ → ℕ
uptime boot_time rtc = (read_uptime boot_time rtc).lo

-- `get_timeofday`
pub get_timeofday : Date
get_timeofday = read_date

-- `read_key`, on the event that the keyboard reports
unfoldable pub read_key : KeyEvent → ℕ
read_key key = if key.keydown then bit_or key.keycode 0x8000 else key.keycode

-- `draw_rect`
pub draw_rect : Pixels → ℕ → ℕ → ℕ → ℕ → Video → Outcome
draw_rect pixels x y w h =
    am_video_write (record { x = x; y = y; w = w; h = h; pixels = pixels; sync = false })

-- `draw_sync`; no pixel is read.
pub draw_sync : Video → Outcome
draw_sync = am_video_write (record { x = 0; y = 0; w = 0; h = 0; pixels = λ i. 0; sync = true })

-- `screen_width`
pub screen_width : Video → ℕ
screen_width st = (am_video_read st).0

-- `screen_height`
pub screen_height : Video → ℕ
screen_height st = (am_video_read st).1
