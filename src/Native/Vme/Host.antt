-- ===== src/Native/Vme/Host.antt =====
-- What the host maps after its calls, from the description of mmap with MAP_FIXED and munmap, and
-- when that is what an address space says.
use nexus_am_ame.Base.{
  ℕ, ◌≤◌, ◌≡◌, ◌≢◌, true, ◌==◌, if◌then◌else◌, Option, some, none, List, [], ◌∷◌,
}
use nexus_am_ame.Native.Vme.{HostCall, mmap, munmap, World, in_user_space}
use nexus_am_ame.Native.Vme.Lists.{Chain, times, count_va, lookup}

-- Each call replaces what was mapped at its page.
abbrev pub mapped_at : List HostCall → ℕ → Option (ℕ × ℕ)
mapped_at [] a = none
mapped_at (mmap va prot offset ∷ calls) a =
    if a == va then some (prot, offset) else mapped_at calls a
mapped_at (munmap va ∷ calls) a = if a == va then none else mapped_at calls a

-- The list of an address space: its nodes end, and no address is in it twice.
pub record IsSpace (w : World) (head : ℕ) (xs : List ℕ) : Type 0 where
  pub chain : Chain w.nodes (w.nodes head).next xs
  pub head_out : times head xs ≡ 0
  pub not_null : head ≢ 0
  pub distinct : (a : ℕ) → count_va w.nodes a xs ≤ 1
  pub in_user : (x : ℕ) → 1 ≤ times x xs → in_user_space (w.nodes x).va ≡ true

-- The host maps what the list says, and its nodes are marked.
pub record IsShown (w : World) (xs : List ℕ) : Type 0 where
  pub host : (a : ℕ) → mapped_at w.calls a ≡ lookup w.nodes xs a
  pub marked : (x : ℕ) → 1 ≤ times x xs → (w.nodes x).is_mapped ≡ true
