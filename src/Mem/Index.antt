-- ===== src/Mem/Index.antt =====
-- server/src/mem.h: the index of the lent pages, with the pool that they come from, under `alloc_page`
-- and `free_page`.
use mathlib.Core.Option.{some-injective}
use l4rdma.Prelude.{
  ℕ, ◌≡◌, ◌≢◌, refl, sym, ap, ◌∙◌, ◌⊎◌, inl, inr, true, false, some, none, List, [], ◌∷◌, arith,
  ◌==◌, ◌&&◌, if◌then◌else◌, Bool-cases, subst,
}
use l4rdma.Run.{Run, ok, FailsAs}
use l4rdma.Dma.{DmaMem}
use l4rdma.Pool.{Slot, free_page}
use l4rdma.Pool.Chain.{Cells}
use l4rdma.Pool.Usage.{used_at}
use l4rdma.Pool.Invariant.{IsPool, with_content, with_content-IsPool}
use l4rdma.Pool.Room.{WithPlace}
use l4rdma.Pool.Returning.{Keeps, Refuses, WithoutPlace, free_page-Returns}
use l4rdma.Mem.{MemPage, MemPools, MemStore, L4re, find_page, forget_page, free_block, return_page}
use l4rdma.Mem.Discharge.{StaysMapped, free_block-Discharge}

-- The pool is well-formed, each entry of the index names a place that is used, and entries under
-- different addresses name different places.
pub record IsIndexed (s : MemStore) (bs : Cells DmaMem MemPage) : Type 0 where
  pub pool : IsPool s bs
  pub lent :
      (phys : ℕ) (slot : Slot)
      → find_page phys s.pool.content.index ≡ some slot
      → used_at bs slot.home slot.index ≡ true
  pub apart :
      (p q : ℕ) (slot : Slot)
      → find_page p s.pool.content.index ≡ some slot
      → find_page q s.pool.content.index ≡ some slot
      → p ≡ q

pub find_page-forget_page :
    (q p : ℕ) (index : List (ℕ × Slot))
    → find_page q (forget_page p index) ≡ (if p == q then none else find_page q index)
unfolding find_page forget_page
find_page-forget_page q p [] = elim (Bool-cases (p == q)) [
  | inl same ↦ rw same refl
  | inr other ↦ rw other refl
]
find_page-forget_page q p ((k, slot) ∷ r) = ground (arith, find_page-forget_page q p r)

forget_page-cases :
    (index : List (ℕ × Slot)) (phys q : ℕ) (other : Slot)
    → find_page q (forget_page phys index) ≡ some other
    → (phys ≢ q) × (find_page q index ≡ some other)
forget_page-cases index phys q other e =
    let after = find_page-forget_page q phys index in
    elim (Bool-cases (phys == q)) [
      | inl same ↦ cc (e, (rw same at after))
      | inr away ↦ (λ same. ground (arith, away, same), sym (rw away at after) ∙ e)
    ]

-- Places that differ do so in the block or in the index.
other_place :
    (slot other : Slot)
    → slot ≢ other
    → ((slot.home == other.home) && (slot.index == other.index)) ≡ false
other_place slot other differ =
    elim (Bool-cases ((slot.home == other.home) && (slot.index == other.index))) [
      | inr away ↦ away
      | inl same ↦
          let homes : slot.home ≡ other.home = ground arith in
          let indices : slot.index ≡ other.index = ground arith in
          absurd (differ (λ i. record { home = homes i; index = indices i }))
    ]

-- An entry of the longer list is the new one or an old one.
pub entry-cases :
    (index : List (ℕ × Slot)) (phys q : ℕ) (slot other : Slot)
    → find_page q ((phys, slot) ∷ index) ≡ some other
    → ((phys ≡ q) × (slot ≡ other)) ⊎ (find_page q index ≡ some other)
unfolding find_page
entry-cases index phys q slot other e = elim (Bool-cases (phys == q)) [
  | inl same ↦ inl (ground arith, some-injective slot other (rw same at e))
  | inr away ↦ inr (rw away at e)
]

-- An entry for a place that was not used and is used now.
pub insert-IsIndexed :
    (s s' : MemStore) (bs bs' : Cells DmaMem MemPage) (phys : ℕ) (slot : Slot)
    → IsIndexed s bs
    → WithPlace bs s' bs' slot
    → s'.pool.content.index ≡ (phys, slot) ∷ s.pool.content.index
    → IsIndexed s' bs'
insert-IsIndexed s s' bs bs' phys slot inv (inv', was, now) listed =
    let entry : (q : ℕ) (other : Slot)
        → find_page q s'.pool.content.index ≡ some other
        → ((phys ≡ q) × (slot ≡ other)) ⊎ (find_page q s.pool.content.index ≡ some other) =
      λ q other e.
        entry-cases s.pool.content.index phys q slot other (ap (find_page q) (sym listed) ∙ e) in
    let fresh : (q : ℕ) (other : Slot)
        → find_page q s.pool.content.index ≡ some other
        → slot ≢ other =
      λ q other e same.
        let used = inv.lent q other e in
        let unused = subst (λ x. used_at bs x.home x.index ≡ false) same was in cc (used, unused) in
    record {
      pool = inv';
      lent = λ q other e. elim (entry q other e) [
        | inl (_, same) ↦
            subst (λ x. used_at bs' x.home x.index ≡ true) same
              (now slot.home slot.index ∙ ground arith)
        | inr old ↦ now other.home other.index ∙ ground (arith, inv.lent q other old)
      ];
      apart = λ p q other e f. elim (entry p other e) [
        | inl (here, same) ↦ elim (entry q other f) [
          | inl (there, _) ↦ sym here ∙ there
          | inr old ↦ absurd (fresh q other old same)
        ]
        | inr first ↦ elim (entry q other f) [
          | inl (_, same) ↦ absurd (fresh p other first same)
          | inr second ↦ inv.apart p q other first second
        ]
      ];
    }

-- The entry of a place that is not used any more is taken out.
pub remove-IsIndexed :
    (s s' : MemStore) (bs bs' : Cells DmaMem MemPage) (phys : ℕ) (slot : Slot)
    → IsIndexed s bs
    → find_page phys s.pool.content.index ≡ some slot
    → WithoutPlace bs slot s' bs'
    → s'.pool.content.index ≡ forget_page phys s.pool.content.index
    → IsIndexed s' bs'
remove-IsIndexed s s' bs bs' phys slot inv found (inv', now) listed =
    let entry : (q : ℕ) (other : Slot)
        → find_page q s'.pool.content.index ≡ some other
        → (phys ≢ q) × (find_page q s.pool.content.index ≡ some other) =
      λ q other e.
        forget_page-cases s.pool.content.index phys q other (ap (find_page q) (sym listed) ∙ e) in
    record {
      pool = inv';
      lent = λ q other e.
          let (away, old) = entry q other e in
          let differ =
            other_place other slot
              (λ same. away (inv.apart phys q slot found (old ∙ ap some same))) in
          now other.home other.index ∙ ground (arith, differ, inv.lent q other old);
      apart = λ p q other e f. inv.apart p q other (entry p other e).1 (entry q other f).1;
    }

return_page-found :
    (l4 : L4re) (s : MemStore) (phys : ℕ) (slot : Slot)
    → find_page phys s.pool.content.index ≡ some slot
    → return_page l4 s phys
      ≡ free_page
          (free_block l4)
          (with_content s (record { index = forget_page phys s.pool.content.index }))
          slot
unfolding return_page
return_page-found l4 s phys slot found = rw (return_page, found) refl

-- A page comes back: its place is not used any more and its entry is gone, every other place and
-- entry is as before.
abbrev pub Unlends : MemStore → Cells DmaMem MemPage → ℕ → Slot → Run MemStore → Type 0
Unlends s bs phys slot r =
    (s' : MemStore) × (bs' : Cells DmaMem MemPage) × (r ≡ ok s')
    × IsIndexed s' bs'
    × WithoutPlace bs slot s' bs'
    × ((q : ℕ)
        → find_page q s'.pool.content.index
          ≡ (if phys == q then none else find_page q s.pool.content.index))

-- Taking back a page that stands in the index, from a block that keeps another used page or is not
-- the first of several, either succeeds: the place of the page is not used any more and its address
-- is not in the index, every other place and entry is as before, and the pool and its index are
-- well-formed again. Or it was the last page of the block, the kernel does not unmap the memory of
-- the block, and the call fails as `free_block` does.
pub return_page-Unlends :
    (l4 : L4re) (s : MemStore) (bs : Cells DmaMem MemPage) (phys : ℕ) (slot : Slot)
    → IsIndexed s bs
    → find_page phys s.pool.content.index ≡ some slot
    → Keeps bs slot.home
    → Unlends s bs phys slot (return_page l4 s phys)
      ⊎ Refuses (StaysMapped l4) (free_block l4) bs slot (return_page l4 s phys)
return_page-Unlends l4 s bs phys slot inv found keeps =
    let pools : MemPools = record { index = forget_page phys s.pool.content.index } in
    let s₁ = with_content s pools in
    let same = return_page-found l4 s phys slot found in
    elim (free_page-Returns (StaysMapped l4) (free_block l4) s₁ bs slot (free_block-Discharge l4)
      (with_content-IsPool s pools bs inv.pool) (inv.lent phys slot found) keeps) [
        | inl (s', bs', gives, without, content) ↦
            let listed : s'.pool.content.index ≡ forget_page phys s.pool.content.index =
              ap (λ c. c.index) content in
            inl (
              s',
              bs',
              same ∙ gives,
              remove-IsIndexed s s' bs bs' phys slot inv found without listed,
              without,
              λ q. ap (find_page q) listed ∙ find_page-forget_page q phys s.pool.content.index,
            )
        | inr (t, bs', without, mapped, fails) ↦ inr (
          t,
          bs',
          without,
          mapped,
          subst (λ r. FailsAs r (free_block l4 t slot.home)) (sym same) fails,
        )
      ]
