-- ===== src/Typing/Game/Start.antt =====
-- The first letter: all nodes of the pool are put in order.
use nexus_am_ame.Base.{
  ℕ, zero, suc, ◌+◌, ◌%◌, ◌≤◌, ◌≡◌, arith, refl, ap, ◌∙◌, Bool-cases, inl, inr, ltb, leb, ◌==◌,
  ◌&&◌, if◌then◌else◌, List, [], ◌∷◌,
}
use nexus_am_ame.Typing.Keyboard.{Keys, release_key}
use nexus_am_ame.Typing.Game.{Field, Game, pool_size, link_nodes, fly_new, create_new_letter}
use nexus_am_ame.Typing.Game.Moves.{Free, times, AreApart}
use nexus_am_ame.Typing.Game.Letters.{letters}
use nexus_am_ame.Typing.Game.Refine.{IsGame}
use nexus_am_ame.Typing.Game.Create.{new_letter, create_new_letter_lem}

-- `k`, `k` + 1, and so on.
unfoldable pub nodes_from : ℕ → ℕ → List ℕ
nodes_from k zero = []
nodes_from k (suc n) = k ∷ nodes_from (suc k) n

times-nodes_from :
    (k n a : ℕ) → times a (nodes_from k n) ≡ (if leb k a && ltb a (k + n) then 1 else 0)
unfolding nodes_from
times-nodes_from k zero a = ground arith
times-nodes_from k (suc n) a = let rest = times-nodes_from (suc k) n a in ground (arith, rest)

link_nodes_lem :
    (n : ℕ) (next : Field) (a : ℕ)
    → link_nodes n next a ≡ (if leb 1 a && leb a n then suc a else next a)
unfolding link_nodes
link_nodes_lem zero next a = ground arith
link_nodes_lem (suc n) next a =
    let rest = link_nodes_lem n next a in
    elim (Bool-cases (a == suc n)) [
      | inl last ↦ ground (arith, last)
      | inr other ↦ ground (arith, rest, other)
    ]

-- Before the first letter: no node is on a list, and the last node of the pool has no next one.
pub record IsFresh (g : Game) : Type 0 where
  pub no_letter : g.head ≡ 0
  pub no_free : g.free_head ≡ 0
  pub last_node : g.next (pool_size + 1) ≡ 0

abbrev linked : Game → Game
linked g = record g { next = link_nodes pool_size g.next; free_head = 1 }

linked-Free :
    (g : Game) (k n : ℕ)
    → g.next (pool_size + 1) ≡ 0
    → 1 ≤ k
    → k + n ≡ pool_size + 1
    → Free (linked g) k (nodes_from k (suc n))
unfolding nodes_from
linked-Free g k zero last low e =
    let at_end : k ≡ pool_size + 1 = omega (arith, e) in
    (
      refl,
      (λ z. omega (arith, low, z)),
      link_nodes_lem pool_size g.next k
          ∙ (let n = ap g.next at_end in ground (arith, n, last, at_end)),
    )
linked-Free g k (suc n) last low e =
    let next : link_nodes pool_size g.next k ≡ suc k =
      link_nodes_lem pool_size g.next k ∙ ground (arith, low, e) in
    (
      refl,
      (λ z. omega (arith, low, z)),
      rw next (linked-Free g (suc k) n last (omega arith) (omega (arith, e))),
    )

start-Free :
    (g : Game) (n : ℕ)
    → g.next (pool_size + 1) ≡ 0
    → n ≡ pool_size
    → Free (linked g) 1 (1 ∷ nodes_from 2 n)
unfolding nodes_from
start-Free g n last e = linked-Free g 1 n last (omega arith) (omega (arith, e))

start-AreApart : (n : ℕ) → AreApart [] (1 ∷ nodes_from 2 n)
start-AreApart n a = let rest = times-nodes_from 2 n a in ground (arith, rest)

same_start :
    (r s t : ℕ) (g : Game) (keys : Keys)
    → IsFresh g
    → create_new_letter r s t (g, keys) ≡ create_new_letter r s t (linked g, keys)
unfolding create_new_letter fly_new
same_start r s t g keys fresh = rw fresh.no_free refl

-- The first call of create_new_letter takes the first node of the pool, and puts the other
-- `pool_size` nodes in order as the free ones.
pub first_letter_lem :
    (r s t : ℕ) (g : Game) (keys : Keys)
    → IsFresh g
    → (g' : Game) × (create_new_letter r s t (g, keys) ≡ (g', release_key (t % 26) keys))
      × IsGame g' (1 ∷ []) (nodes_from 2 pool_size)
      × (letters g' (1 ∷ []) ≡ new_letter r t ∷ [])
unfolding letters
first_letter_lem r s t g keys fresh =
    let start : IsGame (linked g) [] (1 ∷ nodes_from 2 pool_size) = record {
      shown = fresh.no_letter;
      unused = start-Free g pool_size fresh.last_node refl;
      apart = start-AreApart pool_size;
    } in
    let (g', run, game, shown) =
      create_new_letter_lem r s t (linked g) 1 [] (nodes_from 2 pool_size) start keys in
    (g', same_start r s t g keys fresh ∙ run, game, shown)
