-- ===== src/Queue/Objects/Contents.antt =====
-- server/src/queue.h: the content of a used element of a pool, read and written.
use l4rdma.Prelude.{
  set-append, ℕ, zero, suc, ◌≡◌, refl, sym, ap, ◌∙◌, inl, inr, true, List, [], ◌∷◌, ◌++◌, arith,
  All, set, length, subst, ◌==◌, Bool-cases,
}
use l4rdma.Run.{Run, ok, ◌>>=◌}
use l4rdma.Pool.{Ptr, null, Element, Block, Store, Slot}
use l4rdma.Pool.Chain.{Cells, load-ok}
use l4rdma.Pool.FirstFit.{element_at-room}
use l4rdma.Pool.RoundTrip.{load-write}
use l4rdma.Pool.Usage.{
  used_at, is_used, count_used, All-mark, length-middle, Chain-found, Chain-there, Chain-apart,
  used_at-middle,
}
use l4rdma.Pool.Invariant.{IsPool, IsBlock-middle}
use l4rdma.Pool.Marking.{with_block, with_block-IsPool, used_at-with_block}
use l4rdma.Pool.Room.{find-Place}
use l4rdma.Queue.Objects.{object_at, put_object}

module _ {ED : Type 0} (content : ED) where
  count_used-content :
      (taken : List (Element ED)) (e : Element ED) (rest : List (Element ED))
      → count_used (taken ++ record e { content = content } ∷ rest) ≡ count_used (taken ++ e ∷ rest)
  count_used-content [] e rest = refl
  count_used-content (x ∷ taken) e rest = ground (arith, count_used-content taken e rest)

  is_used-content :
      (taken : List (Element ED)) (e : Element ED) (rest : List (Element ED)) (i : ℕ)
      → is_used (taken ++ record e { content = content } ∷ rest) i ≡ is_used (taken ++ e ∷ rest) i
  is_used-content [] e rest zero = refl
  is_used-content [] e rest (suc i) = refl
  is_used-content (x ∷ taken) e rest zero = refl
  is_used-content (x ∷ taken) e rest (suc i) = is_used-content taken e rest i

module _ {PD BD ED : Type 0} where
  -- The content of one element is put, and the pool has the same places in use.
  abbrev pub Puts : Store PD BD ED → Cells BD ED → Slot → ED → Run (Store PD BD ED) → Type 0
  Puts s bs slot content r =
      (s' : Store PD BD ED) × (bs' : Cells BD ED) × (r ≡ ok s')
      × IsPool s' bs'
      × ((home : Ptr) (i : ℕ) → used_at bs' home i ≡ used_at bs home i)
      × (s'.pool ≡ s.pool)
      × (object_at s' slot ≡ ok content)

  module _ (s : Store PD BD ED) (a : Ptr) (b : Block BD ED) (taken : List (Element ED))
      (e : Element ED) (rest : List (Element ED)) (front back : Cells BD ED)
      (inv : IsPool s (front ++ (a, b) ∷ back)) (parts : b.elements ≡ taken ++ e ∷ rest)
      (content : ED) where
    abbrev changed : Block BD ED
    changed = record b { elements = taken ++ record e { content = content } ∷ rest }

    put_object-in :
        Puts s
          (front ++ (a, b) ∷ back)
          (record { home = a; index = length taken })
          content
          (put_object s (record { home = a; index = length taken }) content)
    unfolding put_object object_at
    put_object-in =
        let there = Chain-there s.heap null s.pool.start a b front back inv.chain in
        let found = Chain-found s.heap null s.pool.start a b front back inv.chain in
        let apart = Chain-apart s.heap null s.pool.start a b front back inv.chain in
        let block = IsBlock-middle s.pool.block_size a b front back inv.blocks in
        let loaded = load-ok s.heap a b there found in
        let put : set b.elements (length taken) (record e { content = content })
            ≡ taken ++ record e { content = content } ∷ rest =
          ap (λ es. set es (length taken) (record e { content = content })) parts
          ∙ set-append taken e (record e { content = content }) rest in
        (
          with_block s a changed s.pool.size,
          front ++ (a, changed) ∷ back,
          rw (loaded, ◌>>=◌, element_at-room b taken e rest parts, ◌>>=◌, put) refl,
          with_block-IsPool s a b changed front back inv s.pool.size (refl, refl)
              (record {
                whole =
                    length-middle taken e (record e { content = content }) rest
                    ∙ ap length (sym parts)
                    ∙ block.whole;
                counted =
                    count_used-content content taken e rest
                    ∙ ap count_used (sym parts)
                    ∙ block.counted;
                owned =
                    All-mark (λ x. x.owner ≡ a) taken e (record e { content = content }) rest
                      (λ own. own) (subst (λ es. All (λ x. x.owner ≡ a) es) parts block.owned);
              })
              refl inv.within,
          (λ home i.
              used_at-with_block s a b changed front back inv home i
              ∙ elim (Bool-cases (home == a)) [
                | inl here ↦
                    let same : home ≡ a = ground arith in
                    rw here (
                      is_used-content content taken e rest i
                      ∙ ap (λ es. is_used es i) (sym parts)
                      ∙ sym (used_at-middle front back a b i apart.0)
                      ∙ ap (λ z. used_at (front ++ (a, b) ∷ back) z i) (sym same))
                | inr away ↦ rw away refl
              ]),
          refl,
          rw
              (
                load-write s.heap a changed there,
                ◌>>=◌,
                element_at-room changed taken (record e { content = content }) rest refl,
                ◌>>=◌,
              )
              refl,
        )

  -- The element at a used place of a well-formed pool can be read.
  pub put_object-Puts :
      (s : Store PD BD ED) (bs : Cells BD ED) (slot : Slot) (content : ED)
      → IsPool s bs
      → used_at bs slot.home slot.index ≡ true
      → Puts s bs slot content (put_object s slot content)
  put_object-Puts s bs slot content inv used =
      let (front, b, back, taken, e, rest, place, parts, at, _, _) =
        find-Place bs slot.home slot.index used in
      let given : ℕ → Slot = λ k. record { home = slot.home; index = k } in
      subst (λ k. Puts s bs (given k) content (put_object s (given k) content)) at
        (subst
          (λ cells.
            Puts s cells (given (length taken)) content
              (put_object s (given (length taken)) content))
          (sym place)
          (put_object-in s slot.home b taken e rest front back (subst (IsPool s) place inv) parts
            content))
