-- ===== src/Devices/Audio.antt =====
-- am/src/nemu/common/audio.c: the sound buffer that the driver fills and the device plays. The
-- registers of the device are part of the state. An int that would be negative ends in a memcpy
-- that faults, and one that overflows has no meaning in C: `none`.
pub mod Laws
use nexus_am_ame.Base.{
  ℕ, ◌+◌, ◌-◌, ◌%◌, ◌^◌, Bool, true, ltb, leb, ◌&&◌, if◌then◌else◌, Option, none, some, guard,
  ◌>>=◌, List, [], ◌∷◌,
}

abbrev pub Bytes : Type 0
Bytes = ℕ → ℕ

-- `sbuf`, `sbuf_size` and `head`, and the registers of the device.
pub record Audio : Type 0 where
  pub sbuf : Bytes
  pub sbuf_size : ℕ
  pub head : ℕ
  pub count : ℕ
  pub freq : ℕ
  pub channels : ℕ
  pub samples : ℕ
  pub device_size : ℕ
  pub started : Bool

-- memcpy(m + dst, src, n)
abbrev pub put_bytes : Bytes → ℕ → Bytes → ℕ → Bytes
put_bytes m dst src n x = if leb dst x && ltb x (dst + n) then src (x - dst) else m x

-- The one or two calls of memcpy, and the new `head`.
abbrev pub filled : Bytes → ℕ → Bytes → ℕ → ℕ → Bytes
filled m size buf head nwrite =
    let first = size - head in
    if ltb (nwrite + head) size
    then put_bytes m head buf nwrite
    else put_bytes (put_bytes m head buf first) 0 (λ i. buf (first + i)) (nwrite - first)

abbrev pub next_head : ℕ → ℕ → ℕ → ℕ
next_head size head nwrite =
    if ltb (nwrite + head) size then head + nwrite else nwrite - (size - head)

pub audio_write : Bytes → ℕ → Audio → Option (ℕ × Audio)
audio_write buf len st =
    let free = st.sbuf_size - st.count in
    let nwrite = if ltb free len then free else len in
    guard (leb st.count st.sbuf_size && leb st.head st.sbuf_size && ltb (nwrite + st.head) (2 ^ 31))
      (some (
        nwrite,
        record st {
          sbuf = filled st.sbuf st.sbuf_size buf st.head nwrite;
          head = next_head st.sbuf_size st.head nwrite;
          count = (st.count + nwrite) % 2 ^ 32;
        },
      ))

-- The registers that can be written, with their contents.
pub data AudioRegister : Type 0 where
  audio_init : (freq channels samples bufsize : ℕ) → AudioRegister
  audio_sbctrl : (stream : Bytes) → (len : ℕ) → (wait : Bool) → AudioRegister

-- The loop that waits; the list is what it reads from the count register.
unfoldable pub wait_room : ℕ → ℕ → List ℕ → Option ℕ
wait_room size len [] = none
wait_room size len (c ∷ cs) =
    let later = wait_room size len cs in
    if ltb ((size + 2 ^ 32 - c) % 2 ^ 32) len then later else some c

abbrev pub start : ℕ → ℕ → ℕ → ℕ → Audio → Audio
start freq channels samples bufsize st = record st {
  freq = freq;
  channels = channels;
  samples = samples;
  device_size = bufsize;
  started = true;
  sbuf_size = bufsize;
  head = 0;
}

-- `__am_audio_write`: `len` as it is after the call.
pub am_audio_write : List ℕ → AudioRegister → Audio → Option (ℕ × Audio)
am_audio_write reads (audio_init freq channels samples bufsize) st =
    some (0, start freq channels samples bufsize st)
am_audio_write reads (audio_sbctrl stream len wait) st =
    let waited = guard (leb len st.sbuf_size) (wait_room st.sbuf_size len reads) in
    (if wait then waited else some st.count) >>= λ c.
    audio_write stream len (record st { count = c })

-- `__am_audio_read`: the count and the size.
abbrev pub am_audio_read : Audio → ℕ × ℕ
am_audio_read st = (st.count, st.sbuf_size)
