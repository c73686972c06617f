-- ===== src/Driver/Pages/Addresses.antt =====
-- server/src/driver.cc: the addresses of pages in the payload and in the output of MANAGE_PAGES.
use l4rdma.Prelude.{
  ℕ, zero, suc, ◌+◌, ◌*◌, ◌/◌, ◌%◌, ◌^◌, ◌≡◌, refl, ap, fun_ext, ◌∙◌, none, some, List, [], ◌∷◌,
  arith, length, get_elem?,
}
use l4rdma.Run.{Run, ok, ◌>>=◌}
use l4rdma.Mem.{MemPage, MemStore, L4re, return_page}
use l4rdma.Driver.Pages.{page_words, word_at, address_at, return_pages}

word_at-skip :
    (w v : ℕ) (words : List ℕ) (i j : ℕ)
    → j ≡ suc (suc i)
    → word_at (w ∷ v ∷ words) j ≡ word_at words i
unfolding word_at
word_at-skip w v words i j same = rw same refl

address_at-skip :
    (w v : ℕ) (words : List ℕ) (i : ℕ) → address_at (w ∷ v ∷ words) (2 + i) ≡ address_at words i
unfolding address_at
address_at-skip w v words i =
    rw
      (
        word_at-skip w v words i (2 + i) (omega arith),
        word_at-skip w v words (i + 1) (2 + i + 1) (omega arith),
      )
      refl

same_phys : (p page : MemPage) → some p ≡ some page → p.phys ≡ page.phys
same_phys p page same = ap (λ o. elim o [ none ↦ 0 | some q ↦ q.phys ]) same

address_at-here :
    (phys : ℕ) (words : List ℕ) → address_at (phys / 2 ^ 32 ∷ phys % 2 ^ 32 ∷ words) 0 ≡ ok phys
unfolding address_at word_at
address_at-here phys words =
    let whole : phys / 2 ^ 32 * 2 ^ 32 + phys % 2 ^ 32 ≡ phys = omega arith in ap ok whole

address_at-page_words :
    (pages : List MemPage) (i : ℕ) (page : MemPage)
    → get_elem? pages i ≡ some page
    → address_at (page_words pages) (i * 2) ≡ ok page.phys
unfolding page_words
address_at-page_words [] i page here = absurd (cc here)
address_at-page_words (p ∷ pages) zero page here =
    address_at-here p.phys (page_words pages) ∙ ap ok (same_phys p page here)
address_at-page_words (p ∷ pages) (suc i) page here =
    let place : suc i * 2 ≡ 2 + i * 2 = omega arith in
    ap (address_at (page_words (p ∷ pages))) place
    ∙ address_at-skip (p.phys / 2 ^ 32) (p.phys % 2 ^ 32) (page_words pages) (i * 2)
    ∙ address_at-page_words pages i page here

-- The pages are given back to the pool one after the other.
unfoldable pub return_all : L4re → MemStore → List MemPage → Run MemStore
return_all l4 s [] = ok s
return_all l4 s (page ∷ pages) = return_page l4 s page.phys >>= λ s'. return_all l4 s' pages

module _ (l4 : L4re) (v w : ℕ) (all : List MemPage) where
  return_pages-from :
      (pages : List MemPage) (s : MemStore) (i : ℕ)
      → ((k : ℕ) (page : MemPage)
          → get_elem? pages k ≡ some page
          → get_elem? all (i + k) ≡ some page)
      → return_pages l4 s (v ∷ w ∷ page_words all) i (length pages) ≡ return_all l4 s pages
  unfolding return_pages return_all
  return_pages-from [] s i listed = refl
  return_pages-from (page ∷ pages) s i listed =
      let here : get_elem? all i ≡ some page =
        ap (get_elem? all) (omega arith) ∙ listed 0 page refl in
      let read : address_at (v ∷ w ∷ page_words all) (2 + i * 2) ≡ ok page.phys =
        address_at-skip v w (page_words all) (i * 2) ∙ address_at-page_words all i page here in
      let later : (s' : MemStore)
          → return_pages l4 s' (v ∷ w ∷ page_words all) (i + 1) (length pages)
            ≡ return_all l4 s' pages =
        λ s'.
          return_pages-from pages s' (i + 1)
            λ k page' found. ap (get_elem? all) (omega arith) ∙ listed (suc k) page' found in
      rw (read, ◌>>=◌) (ap (λ next. return_page l4 s page.phys >>= next) (fun_ext later))

-- When the firmware gives back pages in an output that lists their addresses the way the payload of
-- `provide_pages` does, below two words of any content, the loop of `reclaim_pages` returns just
-- these pages to the pool, in their order.
pub return_pages-page_words :
    (l4 : L4re) (s : MemStore) (v w : ℕ) (pages : List MemPage)
    → return_pages l4 s (v ∷ w ∷ page_words pages) 0 (length pages) ≡ return_all l4 s pages
return_pages-page_words l4 s v w pages =
    return_pages-from l4 v w pages pages s 0
      λ k page found. ap (get_elem? pages) (omega arith) ∙ found
