-- ===== src/Typing/Game/Letters.antt =====
-- What the letters do, without their nodes: the meaning of update_letter_pos.
use nexus_am_ame.Base.{
  ℕ, ◌+◌, ◌%◌, ◌^◌, ◌≤◌, ◌≡◌, ◌≢◌, arith, refl, ap, Bool, false, not, ◌&&◌, ◌||◌, if◌then◌else◌,
  List, [], ◌∷◌,
}
use nexus_am_ame.Typing.Game.{Game, put, move_letter, is_above, is_below}
use nexus_am_ame.Typing.Game.Moves.{times}

pub record Letter : Type 0 where
  pub x : ℕ
  pub y : ℕ
  pub text : ℕ
  pub v : ℕ

abbrev pub letter_of : Game → ℕ → Letter
letter_of g i = record { x = g.x i; y = g.y i; text = g.text i; v = g.v i }

unfoldable pub letters : Game → List ℕ → List Letter
letters g [] = []
letters g (x ∷ xs) = letter_of g x ∷ letters g xs

-- A letter after one move, and whether it has left the screen then.
abbrev pub moved : Letter → Letter
moved l = record l { y = (l.y + l.v) % 2 ^ 32 }

abbrev pub leaves : Letter → Bool
leaves l = is_above l.y || is_below l.y

unfoldable pub advance : List Letter → List Letter
advance [] = []
advance (l ∷ ls) = let rest = advance ls in if leaves (moved l) then rest else moved l ∷ rest

-- The counts after the letters that leave at the top, and elsewhere.
unfoldable pub count_hits : ℕ → List Letter → ℕ
count_hits h [] = h
count_hits h (l ∷ ls) =
    count_hits (if leaves (moved l) && is_above (moved l).y then (h + 1) % 2 ^ 32 else h) ls

unfoldable pub count_misses : ℕ → List Letter → ℕ
count_misses h [] = h
count_misses h (l ∷ ls) =
    count_misses (if leaves (moved l) && not (is_above (moved l).y) then (h + 1) % 2 ^ 32 else h) ls

pub letters-same :
    (g g' : Game) (xs : List ℕ)
    → ((a : ℕ) → 1 ≤ times a xs → letter_of g' a ≡ letter_of g a)
    → letters g' xs ≡ letters g xs
unfolding letters
letters-same g g' [] same = refl
letters-same g g' (x ∷ xs) same =
    rw (same x (ground arith), letters-same g g' xs (λ a h. same a (ground (arith, h)))) refl

pub hits_stay :
    (l : Letter) (h : ℕ) (ls : List Letter)
    → leaves (moved l) ≡ false
    → count_hits h (l ∷ ls) ≡ count_hits h ls
unfolding count_hits
hits_stay l h ls on =
    ap (λ b. count_hits (if b && is_above (moved l).y then (h + 1) % 2 ^ 32 else h) ls) on

pub misses_stay :
    (l : Letter) (h : ℕ) (ls : List Letter)
    → leaves (moved l) ≡ false
    → count_misses h (l ∷ ls) ≡ count_misses h ls
unfolding count_misses
misses_stay l h ls on =
    ap (λ b. count_misses (if b && not (is_above (moved l).y) then (h + 1) % 2 ^ 32 else h) ls) on

pub move_letter-other : (g : Game) (x a : ℕ) → a ≢ x → letter_of (move_letter x g) a ≡ letter_of g a
move_letter-other g x a ne =
    let e : put g.y x ((g.y x + g.v x) % 2 ^ 32) a ≡ g.y a = ground (arith, ne) in rw e refl

pub move_letter-same : (g : Game) (x : ℕ) → letter_of (move_letter x g) x ≡ moved (letter_of g x)
move_letter-same g x =
    let e : put g.y x ((g.y x + g.v x) % 2 ^ 32) x ≡ (g.y x + g.v x) % 2 ^ 32 = ground arith in
    rw e refl
