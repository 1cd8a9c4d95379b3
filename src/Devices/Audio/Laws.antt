-- ===== src/Devices/Audio/Laws.antt =====
-- The sound buffer is a queue.
use nexus_am_ame.Base.{
  lt→ltb, ℕ, ◌+◌, ◌-◌, ◌%◌, ◌^◌, ◌≤◌, ◌<◌, ◌≡◌, arith, refl, true, ltb, leb, Bool-cases, inl, inr,
  le→leb, if◌then◌else◌, some, List, [], ◌∷◌,
}
use nexus_am_ame.Devices.Audio.{
  Bytes, Audio, filled, next_head, audio_write, audio_sbctrl, wait_room, am_audio_write,
}

-- The buffer is not empty and has at most 2 ^ 30 bytes, so that no sum of the code overflows; `head` is
-- in it, and no more than its size is queued.
pub record IsReady (st : Audio) : Type 0 where
  pub head_in : st.head < st.sbuf_size
  pub count_in : st.count ≤ st.sbuf_size
  pub size_small : st.sbuf_size ≤ 2 ^ 30

-- The place `i` after the `n`-th before `head`, going round.
abbrev place : ℕ → ℕ → ℕ → ℕ
place size start i = let x = start + i in if ltb x size then x else x - size

-- Where the oldest byte is.
abbrev tail : ℕ → ℕ → ℕ → ℕ
tail size head count = if leb count head then head - count else head + size - count

-- The `i`-th of the bytes that the device has still to play.
abbrev pub queued : Audio → ℕ → ℕ
queued st i = st.sbuf (place st.sbuf_size (tail st.sbuf_size st.head st.count) i)

abbrev pub room : Audio → ℕ → ℕ
room st len = if ltb (st.sbuf_size - st.count) len then st.sbuf_size - st.count else len

module _ (m buf : Bytes) (size head count n : ℕ) (inside : head < size) (fits : count ≤ size)
    (free : n ≤ size - count) where
  place-next : (i : ℕ) → i < n → place size (tail size head count) (count + i) ≡ place size head i
  place-next i lt = ground arith

  tail-next : tail size (next_head size head n) (count + n) ≡ tail size head count
  tail-next = ground arith

  next_head-inside : next_head size head n < size
  next_head-inside = ground arith

  filled-new : (i : ℕ) → i < n → filled m size buf head n (place size head i) ≡ buf i
  filled-new i lt = ground arith

  filled-old :
      (i : ℕ)
      → i < count
      → let x = place size (tail size head count) i in filled m size buf head n x ≡ m x
  filled-old i lt = ground arith

-- A write to a buffer that is ready and whose size is at most 2 ^ 30 bytes takes as many of the bytes as there is room for, puts them
-- behind those that are queued, changes none of these, and leaves the buffer ready.
pub audio_write_lem :
    (buf : Bytes) (len : ℕ) (st : Audio)
    → IsReady st
    → (st' : Audio) × (audio_write buf len st ≡ some (room st len, st'))
      × IsReady st'
      × (st'.count ≡ st.count + room st len)
      × ((i : ℕ) → i < st.count → queued st' i ≡ queued st i)
      × ((i : ℕ) → i < room st len → queued st' (st.count + i) ≡ buf i)
unfolding audio_write
audio_write_lem buf len st ready =
    let n = room st len in
    let free : n ≤ st.sbuf_size - st.count = ground arith in
    let inside = ready.head_in in
    let fits = ready.count_in in
    let small : (st.count + n) % 2 ^ 32 ≡ st.count + n =
      omega (arith, free, fits, ready.size_small) in
    let size = st.sbuf_size in
    let same = tail-next st.sbuf buf size st.head st.count n inside fits free in
    (
      record st {
        sbuf = filled st.sbuf size buf st.head n;
        head = next_head size st.head n;
        count = st.count + n;
      },
      rw
          (
            le→leb st.count size fits,
            le→leb st.head size (omega (arith, inside)),
            lt→ltb (n + st.head) (2 ^ 31) (omega (arith, free, inside, ready.size_small)),
            small,
          )
          refl,
      record {
        head_in = next_head-inside st.sbuf buf size st.head st.count n inside fits free;
        count_in = omega (arith, free, fits);
        size_small = ready.size_small;
      },
      refl,
      λ i lt. rw same (filled-old st.sbuf buf size st.head st.count n inside fits free i lt),
      λ i lt.
          rw (same, place-next st.sbuf buf size st.head st.count n inside fits free i lt)
            (filled-new st.sbuf buf size st.head st.count n inside fits free i lt),
    )

wait_room-enough :
    (size len c : ℕ) (reads : List ℕ)
    → size < 2 ^ 31
    → c ≤ size
    → wait_room size len reads ≡ some c
    → len ≤ size - c
unfolding wait_room
wait_room-enough size len c [] small fits found = ground (arith, found)
wait_room-enough size len c (d ∷ reads) small fits found =
    elim (Bool-cases (ltb ((size + 2 ^ 32 - d) % 2 ^ 32) len)) [
      | inl full ↦ wait_room-enough size len c reads small fits (rw full at found)
      | inr free ↦
          let e : some d ≡ some c = rw free at found in ground (arith, free, e, small, fits)
    ]

-- With `wait`, once the device has played enough to leave room for all of the bytes, the call
-- takes all of them, and they are queued behind the `c` bytes that it still had to play then.
pub am_audio_write_waits :
    (reads : List ℕ) (buf : Bytes) (len c : ℕ) (st : Audio)
    → IsReady st
    → len ≤ st.sbuf_size
    → c ≤ st.sbuf_size
    → wait_room st.sbuf_size len reads ≡ some c
    → (st' : Audio) × (am_audio_write reads (audio_sbctrl buf len true) st ≡ some (len, st'))
      × IsReady st'
      × ((i : ℕ) → i < len → queued st' (c + i) ≡ buf i)
unfolding am_audio_write
am_audio_write_waits reads buf len c st ready whole fits found =
    let now : Audio = record st { count = c } in
    let still : IsReady now = record {
      head_in = ready.head_in;
      count_in = fits;
      size_small = ready.size_small;
    } in
    let (st', run, ready', sum, old, new) = audio_write_lem buf len now still in
    let enough =
      wait_room-enough st.sbuf_size len c reads (omega (arith, ready.size_small)) fits found in
    let all : room now len ≡ len = ground (arith, enough) in
    (
      st',
      rw (le→leb len st.sbuf_size whole, found, run, all) refl,
      ready',
      λ i lt. new i (rw all lt),
    )
