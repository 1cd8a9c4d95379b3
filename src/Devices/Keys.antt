-- ===== src/Devices/Keys.antt =====
-- Key codes, am/amdev.h: the place of a key in _KEYS, from 1.
use nexus_am_ame.Base.{ℕ, List, [], ◌∷◌}

abbrev pub key_none : ℕ
key_none = 0

abbrev pub key_escape : ℕ
key_escape = 1

abbrev pub key_1 : ℕ
key_1 = 15

abbrev pub key_0 : ℕ
key_0 = 24

abbrev pub key_space : ℕ
key_space = 70

-- _KEY_A to _KEY_Z
abbrev pub letters : List ℕ
letters =
    43 ∷ 60 ∷ 58 ∷ 45 ∷ 31 ∷ 46 ∷ 47 ∷ 48 ∷ 36 ∷ 49 ∷ 50 ∷ 51 ∷ 62 ∷ 61 ∷ 37 ∷ 38 ∷ 29 ∷ 32 ∷ 44
    ∷ 33 ∷ 35 ∷ 59 ∷ 30 ∷ 57 ∷ 34 ∷ 56 ∷ []
