-- ===== src/Native/Vme.antt =====
-- am/src/native/vme.c: an address space is a linked list of pages, and the one in use is mapped into
-- the process of the host. The host's mappings are the calls of mmap and munmap, the newest first.
pub mod Lists
pub mod Host
pub mod Map
pub mod Again
pub mod Kept
pub mod Hide
pub mod Show
pub mod Switch
use nexus_am_ame.Base.{
  ℕ, zero, suc, ◌+◌, ◌-◌, ◌%◌, ◌^◌, Bool, true, false, leb, ltb, ◌==◌, ◌&&◌, ◌||◌, not,
  if◌then◌else◌, bit_and, bit_or, Option, some, none, ◌>>=◌, guard, List, [], ◌∷◌,
}

-- `PageMap`; a pointer is an address, and NULL is 0.
pub record PageMap : Type 0 where
  pub va : ℕ
  pub pa : ℕ
  pub next : ℕ
  pub prot : ℕ
  pub is_mapped : Bool

pub data HostCall : Type 0 where
  mmap : (va prot offset : ℕ) → HostCall
  munmap : (va : ℕ) → HostCall

-- The nodes by address, the static variables, `vm_head` of the processor, and the pages that the
-- client's allocator will give.
pub record World : Type 0 where
  pub nodes : ℕ → PageMap
  pub vme_enable : Bool
  pub vm_head : ℕ
  pub pgsize : ℕ
  pub pages : List ℕ
  pub calls : List HostCall

abbrev pub store : (ℕ → PageMap) → ℕ → PageMap → ℕ → PageMap
store nodes p m q = if q == p then m else nodes q

-- `pmem` is PMEM_START.
abbrev pub mmap_prot : ℕ → ℕ
mmap_prot prot =
    bit_or (if bit_and prot 2 == 0 then 0 else 5) (if bit_and prot 4 == 0 then 0 else 2)

abbrev pub offset : ℕ → ℕ
offset pa = (pa + 2 ^ 64 - 0x3000000) % 2 ^ 64

-- `__am_pmem_map`, `__am_pmem_unmap`
abbrev pub pmem_map : ℕ → ℕ → ℕ → World → World
pmem_map va pa prot w = record w { calls = mmap va (mmap_prot prot) (offset pa) ∷ w.calls }

abbrev pub pmem_unmap : ℕ → World → World
pmem_unmap va w = record w { calls = munmap va ∷ w.calls }

abbrev pub in_user_space : ℕ → Bool
in_user_space va = leb 0x40000000 va && ltb va 0xc0000000

abbrev pub set_mapped : ℕ → Bool → World → World
set_mapped p b w = record w { nodes = store w.nodes p (record (w.nodes p) { is_mapped = b }) }

-- The loops over a list, by fuel: `none` if it is used up. This one looks for a page.
unfoldable pub find_map : ℕ → ℕ → ℕ → (ℕ → PageMap) → Option ℕ
find_map zero va p nodes = none
find_map (suc n) va p nodes =
    let rest = find_map n va (nodes p).next nodes in
    if p == 0 then some 0 else (if (nodes p).va == va then some p else rest)

unfoldable pub unmap_all : ℕ → ℕ → World → Option World
unmap_all zero p w = none
unmap_all (suc n) p w =
    let w' =
      if (w.nodes p).is_mapped then set_mapped p false (pmem_unmap (w.nodes p).va w) else w in
    let rest = unmap_all n (w'.nodes p).next w' in if p == 0 then some w else rest

unfoldable pub map_all : ℕ → ℕ → World → Option World
map_all zero p w = none
map_all (suc n) p w =
    let m = w.nodes p in
    let w' = set_mapped p true (pmem_map m.va m.pa m.prot w) in
    let rest = map_all n (w'.nodes p).next w' in
    if p == 0 then some w else guard (in_user_space m.va) rest

-- `__am_switch`, to the list of the context
pub am_switch : ℕ → ℕ → World → Option World
am_switch n head w =
    if not w.vme_enable || (head == w.vm_head)
    then some w
    else (if w.vm_head == 0 then some w else unmap_all n (w.nodes w.vm_head).next w)
      >>= (λ w1. (if head == 0 then some w1 else map_all n (w1.nodes head).next w1))
      >>= (λ w2. some (record w2 { vm_head = head }))

-- A page for the node: the one that is found, or a new one.
abbrev pub node_for : ℕ → World → Option (ℕ × World)
node_for pp w =
    if pp == 0
    then elim w.pages [ [] ↦ none | p ∷ ps ↦ some (p, record w { pages = ps }) ]
    else some (pp, w)

-- The node is filled and put behind the head.
abbrev pub link_node : ℕ → ℕ → ℕ → ℕ → ℕ → World → World
link_node head va pa prot pp w =
    let filled =
      store w.nodes pp
        (record { va = va; pa = pa; prot = prot; is_mapped = false; next = (w.nodes head).next }) in
    record w { nodes = store filled head (record (filled head) { next = pp }) }

-- `_map`, in the space whose list has this head
pub map : ℕ → ℕ → ℕ → ℕ → ℕ → World → Option World
map n head va pa prot w =
    guard (in_user_space va && (va % w.pgsize == 0) && (pa % w.pgsize == 0) && not (head == 0))
      (find_map n va (w.nodes head).next w.nodes)
    >>= (λ found. node_for found w)
    >>= (λ (pp, w1).
        let linked = link_node head va pa prot pp w1 in
        some (
          if head == linked.vm_head
          then set_mapped pp true (pmem_map va pa prot linked)
          else linked))

pub vme_init : World → World
vme_init w = record w { vme_enable = true }

-- `_AddressSpace`; the head of the list has what is in the page that the allocator gives.
pub record AddressSpace : Type 0 where
  pub ptr : ℕ
  pub pgsize : ℕ
  pub area : ℕ × ℕ

pub protect : World → Option (AddressSpace × World)
protect w = elim w.pages [
  | [] ↦ none
  | p ∷ ps ↦ some (
    record { ptr = p; pgsize = w.pgsize; area = (0x40000000, 0xc0000000) },
    record w { pages = ps },
  )
]

-- `__am_in_userspace`
pub in_userspace : ℕ → World → Bool
in_userspace addr w = w.vme_enable && not (w.vm_head == 0) && in_user_space addr
