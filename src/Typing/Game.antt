-- ===== src/Typing/Game.antt =====
-- apps/typing/game.c with the list of apps/typing/game.h: the falling letters are nodes of a pool,
-- in a doubly linked list from `head`; the others are linked from `free_head`. Node `i` of the
-- pool is i + 1, and 0 is NULL. An int is its 32 bits; what rand returns is an argument.
pub mod Moves
pub mod Letters
pub mod Steps
pub mod Refine
pub mod Create
pub mod Start
pub mod Press
pub mod Place
pub mod Frame
use nexus_am_ame.Base.{
  ℕ, zero, suc, ◌+◌, ◌-◌, ◌*◌, ◌/◌, ◌%◌, ◌^◌, Bool, true, false, leb, ltb, ◌==◌, ◌&&◌, ◌||◌, not,
  if◌then◌else◌, Option, some, none, ◌>>=◌,
}
use nexus_am_ame.Words.{int_less}
use nexus_am_ame.Typing.Keyboard.{Keys, query_key, release_key}

abbrev pub Field : Type 0
Field = ℕ → ℕ

-- The fields of the nodes, and the static variables.
pub record Game : Type 0 where
  pub x : Field
  pub y : Field
  pub text : Field
  pub v : Field
  pub prev : Field
  pub next : Field
  pub free_head : ℕ
  pub head : ℕ
  pub hit : ℕ
  pub miss : ℕ

abbrev pub put : Field → ℕ → ℕ → Field
put f a b i = if i == a then b else f i

abbrev pub pool_size : ℕ
pool_size = 1000

-- The loop of fly_new: the nodes 1 to `n` get the one behind them as the next.
unfoldable pub link_nodes : ℕ → Field → Field
link_nodes zero next = next
link_nodes (suc n) next = put (link_nodes n next) (suc n) (suc (suc n))

pub fly_new : Game → ℕ × Game
fly_new g =
    let linked = if g.free_head == 0 then link_nodes pool_size g.next else g.next in
    let ret = if g.free_head == 0 then 1 else g.free_head in
    (ret, record g { free_head = linked ret; prev = put g.prev ret 0; next = put linked ret 0 })

abbrev pub fly_insert : ℕ → ℕ → ℕ → Game → Game
fly_insert before after obj g =
    let prev' = put g.prev obj before in
    let next' = put g.next obj after in
    record g {
      next = if before == 0 then next' else put next' before obj;
      prev = if after == 0 then prev' else put prev' after obj;
    }

abbrev pub fly_remove : ℕ → Game → Game
fly_remove node g = record g {
  next = if g.prev node == 0 then g.next else put g.next (g.prev node) (g.next node);
  prev = if g.next node == 0 then g.prev else put g.prev (g.next node) (g.prev node);
}

abbrev pub fly_free : ℕ → Game → Game
fly_free node g = record g { next = put g.next node g.free_head; free_head = node }

-- The fields of a new letter, at `head`.
abbrev pub fill_letter : ℕ → ℕ → ℕ → Game → Game
fill_letter r s t g = record g {
  y = put g.y g.head 0;
  x = put g.x g.head (r % (320 / 8 - 2) * 8 + 8);
  v = put g.v g.head (s % 1000 / 2000 + 1);
  text = put g.text g.head (t % 26);
}

-- `create_new_letter`
pub create_new_letter : ℕ → ℕ → ℕ → Game × Keys → Game × Keys
create_new_letter r s t (g, keys) =
    let made = fly_new g in
    let added = if g.head == 0 then made.1 else fly_insert 0 g.head made.0 made.1 in
    (fill_letter r s t (record added { head = made.0 }), release_key (t % 26) keys)

-- `y < 0`, `y + 8 > H`
abbrev pub is_above : ℕ → Bool
is_above y = leb (2 ^ 31) y

abbrev pub is_below : ℕ → Bool
is_below y = int_less 200 ((y + 8) % 2 ^ 32)

-- A letter that leaves is counted, taken off the list and freed.
abbrev pub drop_letter : ℕ → ℕ → Game → Game
drop_letter it next g =
    let above = is_above (g.y it) in
    let counted = record g {
      hit = if above then (g.hit + 1) % 2 ^ 32 else g.hit;
      miss = if above then g.miss else (g.miss + 1) % 2 ^ 32;
    } in
    let freed = fly_free it (fly_remove it counted) in
    record freed { head = if it == g.head then next else g.head }

abbrev pub move_letter : ℕ → Game → Game
move_letter it g = record g { y = put g.y it ((g.y it + g.v it) % 2 ^ 32) }

-- The body of the loop of update_letter_pos.
abbrev pub update_one : ℕ → Game → Game
update_one it g =
    let moved = move_letter it g in
    if is_above (moved.y it) || is_below (moved.y it)
    then drop_letter it (g.next it) moved
    else moved

-- The loop, by fuel: `none` if it is used up.
unfoldable pub update_loop : ℕ → ℕ → Game → Option Game
update_loop zero it g = none
update_loop (suc n) it g =
    let rest = update_loop n (g.next it) (update_one it g) in if it == 0 then some g else rest

-- `update_letter_pos`; a list has at most one node more than `pool_size`.
pub update_letter_pos : Game → Option Game
update_letter_pos g = update_loop (pool_size + 2) g.head g

-- The search of update_keypress: the target so far and its `min`.
unfoldable pub find_target : ℕ → ℕ → Keys → Game → ℕ × ℕ → Option ℕ
find_target zero it keys g best = none
find_target (suc n) it keys g (target, least) =
    let better = int_less 0 (g.v it) && int_less least (g.y it) && query_key keys (g.text it) in
    let rest =
      find_target n (g.next it) keys g (if better then (it, g.y it) else (target, least)) in
    if it == 0 then some target else rest

-- `update_keypress`
pub update_keypress : Game × Keys → Option (Bool × Game × Keys)
update_keypress (g, keys) =
    find_target (pool_size + 2) g.head keys g (0, 2 ^ 32 - 100) >>= λ target. some (
      if target == 0
      then (false, g, keys)
      else (true, record g { v = put g.v target (2 ^ 32 - 3) }, release_key (g.text target) keys))

-- The loop of `main` over update_keypress, by fuel.
unfoldable pub press_loop : ℕ → Game × Keys → Option (Game × Keys)
press_loop zero s = none
press_loop (suc n) s = update_keypress s >>= λ (again, g, keys).
    let rest = press_loop n (g, keys) in if again then rest else some (g, keys)

-- The part of a round of `main` behind the keyboard: 100 rounds a second, 10 letters a second and
-- 100 moves a second.
pub game_frame : ℕ → ℕ × ℕ × ℕ → Game × Keys → Option (Game × Keys)
game_frame frames (r, s, t) state = press_loop (pool_size + 2) state >>= λ hit.
    let made = if frames % (100 / 10) == 0 then create_new_letter r s t hit else hit in
    update_letter_pos made.0 >>= λ g. some (g, made.1)
