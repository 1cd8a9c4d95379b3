-- ===== src/Native/Vme/Kept.antt =====
-- What the loops of __am_switch leave as it was.
use nexus_am_ame.Base.{ℕ, ◌≡◌, arith, refl, ◌∙◌, Bool, Bool-cases, inl, inr, ◌==◌, List, [], ◌∷◌}
use nexus_am_ame.Native.Vme.{PageMap, HostCall, World, set_mapped}
use nexus_am_ame.Native.Vme.Lists.{Chain, count_va, lookup}

-- All but the marks and the calls is the same.
pub record Kept (w w' : World) : Type 0 where
  pub next : (a : ℕ) → (w'.nodes a).next ≡ (w.nodes a).next
  pub va : (a : ℕ) → (w'.nodes a).va ≡ (w.nodes a).va
  pub pa : (a : ℕ) → (w'.nodes a).pa ≡ (w.nodes a).pa
  pub prot : (a : ℕ) → (w'.nodes a).prot ≡ (w.nodes a).prot
  pub enable : w'.vme_enable ≡ w.vme_enable
  pub used : w'.vm_head ≡ w.vm_head

pub Kept-refl : (w : World) → Kept w w
Kept-refl w = record {
  next = λ a. refl;
  va = λ a. refl;
  pa = λ a. refl;
  prot = λ a. refl;
  enable = refl;
  used = refl;
}

pub Kept-trans : (w1 w2 w3 : World) → Kept w1 w2 → Kept w2 w3 → Kept w1 w3
Kept-trans w1 w2 w3 k l = record {
  next = λ a. l.next a ∙ k.next a;
  va = λ a. l.va a ∙ k.va a;
  pa = λ a. l.pa a ∙ k.pa a;
  prot = λ a. l.prot a ∙ k.prot a;
  enable = l.enable ∙ k.enable;
  used = l.used ∙ k.used;
}

pub Chain-Kept :
    (w w' : World) (p : ℕ) (xs : List ℕ) → Kept w w' → Chain w.nodes p xs → Chain w'.nodes p xs
Chain-Kept w w' p [] k c = c
Chain-Kept w w' p (x ∷ xs) k (e, nz, rest) =
    (e, nz, rw (k.next x) (Chain-Kept w w' (w.nodes x).next xs k rest))

pub lookup-Kept :
    (w w' : World) (xs : List ℕ) (a : ℕ) → Kept w w' → lookup w'.nodes xs a ≡ lookup w.nodes xs a
lookup-Kept w w' [] a k = refl
lookup-Kept w w' (x ∷ xs) a k = rw (k.va x, k.pa x, k.prot x, lookup-Kept w w' xs a k) refl

pub count_va-Kept :
    (w w' : World) (xs : List ℕ) (a : ℕ)
    → Kept w w'
    → count_va w'.nodes a xs ≡ count_va w.nodes a xs
count_va-Kept w w' [] a k = refl
count_va-Kept w w' (x ∷ xs) a k = rw (k.va x, count_va-Kept w w' xs a k) refl

set_mapped-field :
    (field : PageMap → ℕ) (w : World) (p : ℕ) (b : Bool) (a : ℕ)
    → ((m : PageMap) → field (record m { is_mapped = b }) ≡ field m)
    → field ((set_mapped p b w).nodes a) ≡ field (w.nodes a)
set_mapped-field field w p b a same = elim (Bool-cases (a == p)) [
  | inl here ↦ let e : p ≡ a = ground (arith, here) in rw (here, e) (same (w.nodes a))
  | inr other ↦ rw other refl
]

pub set_mapped-Kept : (w : World) (p : ℕ) (b : Bool) → Kept w (set_mapped p b w)
set_mapped-Kept w p b = record {
  next = λ a. set_mapped-field (λ m. m.next) w p b a (λ m. refl);
  va = λ a. set_mapped-field (λ m. m.va) w p b a (λ m. refl);
  pa = λ a. set_mapped-field (λ m. m.pa) w p b a (λ m. refl);
  prot = λ a. set_mapped-field (λ m. m.prot) w p b a (λ m. refl);
  enable = refl;
  used = refl;
}

pub calls-Kept : (w : World) (calls : List HostCall) → Kept w (record w { calls = calls })
calls-Kept w calls = record {
  next = λ a. refl;
  va = λ a. refl;
  pa = λ a. refl;
  prot = λ a. refl;
  enable = refl;
  used = refl;
}
