-- ===== src/Devices/Tests.antt =====
-- Runs of the drivers, and their theorems at concrete inputs.
use nexus_am_ame.Base.{ℕ, ◌+◌, ◌<◌, ◌≡◌, arith, refl, true, false, some, List, [], ◌∷◌, inl, inr}
use nexus_am_ame.Devices.Audio.{Audio, audio_write}
use nexus_am_ame.Devices.Audio.Laws.{IsReady, queued, audio_write_lem}
use nexus_am_ame.Devices.Video.{Video, FbCtrl}
use nexus_am_ame.Devices.Input.{Keyboard, KeyEvent}
use nexus_am_ame.Devices.Input.Laws.{read_all, all_may_happen, held_key, read_all_lem}

-- A buffer of eight bytes with three queued, near its end.
abbrev sound : Audio
sound = record {
  sbuf = λ i. 0;
  sbuf_size = 8;
  head = 6;
  count = 3;
  freq = 44100;
  channels = 1;
  samples = 4;
  device_size = 8;
  started = true;
}

sound-IsReady : IsReady sound
sound-IsReady = record { head_in = omega arith; count_in = omega arith; size_small = omega arith }

audio_write_lem_example :
    (st' : Audio) × (audio_write (λ i. i + 1) 9 sound ≡ some (5, st'))
    × IsReady st'
    × (st'.count ≡ 8)
    × ((i : ℕ) → i < 3 → queued st' i ≡ queued sound i)
    × ((i : ℕ) → i < 5 → queued st' (3 + i) ≡ i + 1)
audio_write_lem_example = audio_write_lem (λ i. i + 1) 9 sound sound-IsReady

abbrev screen : Video
screen = record { width = 10; height = 8; fb = λ i. 0; syncs = 0 }

abbrev square : FbCtrl
square = record { x = 7; y = 2; w = 3; h = 3; pixels = λ i. i + 1; sync = true }

-- No key is down.
abbrev idle : Keyboard
idle = record { last_key = 0; last_release = false; timestamp = 0 }

read_all_lem_example :
    (evs : List KeyEvent) × (read_all ((97, 10) ∷ (98, 20) ∷ (255, 25) ∷ (0, 900) ∷ []) idle
      ≡ some evs)
    × (all_may_happen (held_key idle) evs ≡ true)
read_all_lem_example =
    read_all_lem ((97, 10) ∷ (98, 20) ∷ (255, 25) ∷ (0, 900) ∷ []) idle
      (inl (omega arith), (inl (omega arith), (inr refl, (inl (omega arith), tt))))
      (λ e. absurd (ground (arith, e)))
