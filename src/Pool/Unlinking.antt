-- ===== src/Pool/Unlinking.antt =====
-- server/src/pool.h: `remove_block_from_pool` and `destroy_block` on the linked list on the heap, for
-- a block that other blocks stand before.
use l4rdma.Prelude.{
  ◌≡◌, ◌≢◌, refl, sym, ap, ◌∙◌, true, false, some, none, [], ◌∷◌, ◌++◌, arith, ◌==◌, Bool-cases,
  inl, inr,
}
use l4rdma.Run.{ok, ◌>>=◌}
use l4rdma.Pool.{
  Ptr, null, Block, Heap, Store, write, decrement, remove_block_from_pool, unlink_block,
}
use l4rdma.Pool.Chain.{Cells, Chain, has, last_of, load-ok, not_null}
use l4rdma.Pool.Supply.{last_block, last_of-has, write-at, write-away}
use l4rdma.Pool.Invariant.{link}
use l4rdma.Pool.Relink.{behind, first_at, has-append, has-relinked}

module _ {BD ED : Type 0} where
  -- A list depends only on the heap at its own addresses.
  pub Chain-agree :
      (h k : Heap BD ED) (prev p : Ptr) (bs : Cells BD ED)
      → ((z : Ptr) → has z bs ≡ true → k z ≡ h z)
      → Chain h prev p bs
      → Chain k prev p bs
  Chain-agree h k prev p [] same ch = ch
  Chain-agree h k prev p ((x, c) ∷ r) same ch = (
    ch.0,
    ch.1,
    same x (ground arith) ∙ ch.2,
    ch.3,
    ch.4,
    Chain-agree h k x c.next r (λ z inside. same z (ground arith)) ch.5,
  )

  not_first : (z : Ptr) (back : Cells BD ED) → has z back ≡ false → first_at z back ≡ false
  not_first z [] out = refl
  not_first z ((y, d) ∷ r) out = ground (arith, out)

  Chain-behind :
      (h k : Heap BD ED) (a v p : Ptr) (back : Cells BD ED)
      → ((y : Ptr) (d : Block BD ED)
          → first_at y back ≡ true
          → h y ≡ some d
          → k y ≡ some (record d { prev = v }))
      → ((z : Ptr) → has z back ≡ true → first_at z back ≡ false → k z ≡ h z)
      → Chain h a p back
      → Chain k v p (behind v back)
  Chain-behind h k a v p [] first same ch = ch
  Chain-behind h k a v p ((y, d) ∷ r) first same ch = (
    ch.0,
    ch.1,
    first y d (ground arith) ch.2,
    refl,
    ch.4,
    Chain-agree h k y d.next r
        (λ z inside. elim (Bool-cases (z == y)) [
          | inl here ↦ let e : z ≡ y = ground arith in cc (ap (λ x. has x r) e, inside, ch.4)
          | inr away ↦ same z (ground arith) away
        ])
        ch.5,
  )

  -- The block before `a`, and what is known of it.
  pub Chain-before :
      (h : Heap BD ED) (prev p x a : Ptr) (c b : Block BD ED) (r back : Cells BD ED)
      → Chain h prev p ((x, c) ∷ r ++ (a, b) ∷ back)
      → (last_of x r ≢ null)
        × (h (last_of x r) ≡ some (last_block c r))
        × (has (last_of x r) ((a, b) ∷ back) ≡ false)
        × Chain h (last_of x r) a ((a, b) ∷ back)
  Chain-before h prev p x a c b [] back ch =
      (ch.1, ch.2, ch.4, (refl, ch.5.1, ch.5.2, ch.5.3, ch.5.4, ch.5.5))
  Chain-before h prev p x a c b ((y, d) ∷ r) back ch = Chain-before h x c.next y a d b r back ch.5

  -- The list without block `a`, on a heap that differs only at the blocks on both sides of `a`, and
  -- at `a`.
  pub Chain-relinked :
      (h k : Heap BD ED) (prev p x a : Ptr) (c b : Block BD ED) (r back : Cells BD ED)
      → k (last_of x r) ≡ some (record (last_block c r) { next = b.next })
      → ((y : Ptr) (d : Block BD ED)
          → first_at y back ≡ true
          → h y ≡ some d
          → k y ≡ some (record d { prev = last_of x r }))
      → ((z : Ptr) → z ≢ last_of x r → z ≢ a → first_at z back ≡ false → k z ≡ h z)
      → Chain h prev p ((x, c) ∷ r ++ (a, b) ∷ back)
      → Chain k prev p (link b.next ((x, c) ∷ r) ++ behind (last_of x r) back)
  Chain-relinked h k prev p x a c b [] back last first same ch =
      let out : has x back ≡ false = ground (arith, ch.4) in
      (
        ch.0,
        ch.1,
        last,
        ch.3,
        has-relinked x b.next x [] back ∙ ground (arith, ch.4),
        Chain-behind h k a x b.next back first
            (λ z inside later.
              same z (λ e. cc (ap (λ w. has w back) e, inside, out))
                (λ e. cc (ap (λ w. has w back) e, inside, ch.5.4)) later)
            ch.5.5,
      )
  Chain-relinked h k prev p x a c b ((y, d) ∷ r) back last first same ch =
      let parts = has-append x ((y, d) ∷ r) ((a, b) ∷ back) in
      let apart : has x ((y, d) ∷ r) ≡ false = ground (arith, parts, ch.4) in
      let behind_a : has x ((a, b) ∷ back) ≡ false = ground (arith, parts, ch.4) in
      let out : has x back ≡ false = ground (arith, behind_a) in
      (
        ch.0,
        ch.1,
        same x (last_of-has x y d r apart) (λ e. ground (arith, behind_a, e)) (not_first x back out)
            ∙ ch.2,
        ch.3,
        has-relinked x b.next (last_of y r) ((y, d) ∷ r) back ∙ ground (arith, apart, out),
        Chain-relinked h k x c.next y a d b r back last first same ch.5,
      )

-- Where the pool ends without the block between `last` and `back`.
abbrev pub end_without : {BD ED : Type 0} → (old last : Ptr) → Cells BD ED → Ptr
end_without old last [] = last
end_without old last (c ∷ back) = old

module _ {PD BD ED : Type 0} where
  -- The pool after a block between `last` and `back` is taken out, on heap `h`.
  abbrev pub pool_without : Store PD BD ED → Ptr → Cells BD ED → Heap BD ED → Store PD BD ED
  pool_without s last back h = record {
    pool = record (s.pool) {
      end = end_without s.pool.end last back;
      block_count = decrement s.pool.block_count;
    };
    heap = h;
  }

  -- A block that other blocks stand before is taken out of the list: the block itself is still on
  -- the heap, and without it the blocks around it stand in a list.
  pub remove_block_from_pool-behind :
      (s : Store PD BD ED) (x a : Ptr) (c b : Block BD ED) (r back : Cells BD ED)
      → Chain s.heap null s.pool.start ((x, c) ∷ r ++ (a, b) ∷ back)
      → (h : Heap BD ED) × (remove_block_from_pool s a ≡ ok (pool_without s (last_of x r) back h))
        × (h a ≡ some b)
        × Chain
            (write h a none)
            null
            s.pool.start
            (link b.next ((x, c) ∷ r) ++ behind (last_of x r) back)
  unfolding remove_block_from_pool unlink_block
  remove_block_from_pool-behind s x a c b r [] ch =
      let (there, found, apart, here) = Chain-before s.heap null s.pool.start x a c b r [] ch in
      let last = last_of x r in
      let other : a ≢ last = λ e. ground (arith, apart, e) in
      let other' : last ≢ a = λ e. other (sym e) in
      let loaded = load-ok s.heap a b here.1 here.2 in
      let before = load-ok s.heap last (last_block c r) there found in
      let h = write s.heap last (some (record (last_block c r) { next = null })) in
      let ends : b.next ≡ null = here.5 in
      (
        h,
        rw (loaded, ◌>>=◌, here.3, not_null there, ends, before, ◌>>=◌) refl,
        write-away s.heap last a _ other ∙ here.2,
        Chain-relinked s.heap (write h a none) null s.pool.start x a c b r []
            (write-away h a last none other' ∙ write-at s.heap last _ ∙ rw ends refl)
            (λ y d first. cc)
            (λ z far away first. write-away h a z none away ∙ write-away s.heap last z _ far) ch,
      )
  remove_block_from_pool-behind s x a c b r ((y, d) ∷ back) ch =
      let (there, found, apart, here) =
        Chain-before s.heap null s.pool.start x a c b r ((y, d) ∷ back) ch in
      let last = last_of x r in
      let other : a ≢ last = λ e. ground (arith, apart, e) in
      let other' : last ≢ a = λ e. other (sym e) in
      let later : y ≢ last = λ e. ground (arith, apart, e) in
      let later' : y ≢ a = λ e. ground (arith, here.4, e) in
      let loaded = load-ok s.heap a b here.1 here.2 in
      let before = load-ok s.heap last (last_block c r) there found in
      let h₁ = write s.heap last (some (record (last_block c r) { next = y })) in
      let after = load-ok h₁ y d here.5.1 (write-away s.heap last y _ later ∙ here.5.2) in
      let h = write h₁ y (some (record d { prev = last })) in
      (
        h,
        rw
            (
              loaded,
              ◌>>=◌,
              here.3,
              not_null there,
              here.5.0,
              not_null here.5.1,
              before,
              ◌>>=◌,
              after,
              ◌>>=◌,
            )
            refl,
        write-away h₁ y a _ (λ e. later' (sym e)) ∙ write-away s.heap last a _ other ∙ here.2,
        Chain-relinked s.heap (write h a none) null s.pool.start x a c b r ((y, d) ∷ back)
            (write-away h a last none other'
              ∙ write-away h₁ y last _ (λ e. later (sym e))
              ∙ write-at s.heap last _
              ∙ rw here.5.0 refl)
            (λ z e first at_z.
              let same : z ≡ y = ground (arith, first) in
              let block : e ≡ d = cc (at_z, ap s.heap same, here.5.2) in
              write-away h a z none (λ g. later' (sym same ∙ g))
              ∙ ap h same
              ∙ write-at h₁ y _
              ∙ ap {A = Block BD ED} (λ w. some (record w { prev = last })) (sym block))
            (λ z far away first.
              write-away h a z none away
              ∙ write-away h₁ y z _ (λ e. ground (arith, e, first))
              ∙ write-away s.heap last z _ far)
            ch,
      )

  -- The only block of a pool is taken out.
  pub remove_block_from_pool-only :
      (s : Store PD BD ED) (a : Ptr) (b : Block BD ED)
      → Chain s.heap null s.pool.start ((a, b) ∷ [])
      → remove_block_from_pool s a
        ≡ ok (record s {
          pool = record (s.pool) { start = null; block_count = decrement s.pool.block_count };
        })
  unfolding remove_block_from_pool unlink_block
  remove_block_from_pool-only s a b ch =
      let loaded = load-ok s.heap a b ch.1 ch.2 in
      let first : b.prev ≡ null = ch.3 in
      let last : b.next ≡ null = ch.5 in rw (loaded, ◌>>=◌, first, last) refl
