-- ===== src/Event/Payload.antt =====
-- server/src/event.cc: the input of CREATE_EQ.
use mathlib.Core.List.{append_assoc}
use l4rdma.Prelude.{
  ℕ, ◌+◌, ◌*◌, ◌≤◌, ◌≡◌, refl, sym, ap, ◌∙◌, List, [], ◌∷◌, ◌++◌, arith, length, take, drop, set,
  set-append, take-append, drop-drop, drop-append_prefix, take-append_prefix, length-take,
  length-append, length-drop,
}
use l4rdma.Queue.Objects.{pas_words}
use l4rdma.Queue.Objects.Addresses.{length-pas_words}
use l4rdma.Event.{eqi_size, copy_words, eq_payload, eqi_words}

length-eqi_words :
    (size uar_index irq_num type : ℕ) → length (eqi_words size uar_index irq_num type) ≡ eqi_size
unfolding eqi_words
length-eqi_words size uar_index irq_num type = refl

-- The loop leaves the words before the place that it starts at, and those behind the ones that it
-- copies.
copy_words-parts :
    (before array ws : List ℕ)
    → length ws ≤ length array
    → copy_words (before ++ array) (length before) ws ≡ before ++ (ws ++ drop (length ws) array)
unfolding copy_words
copy_words-parts before array [] fits = refl
copy_words-parts before [] (w ∷ ws) fits = absurd (omega arith)
copy_words-parts before (x ∷ array) (w ∷ ws) fits =
    let here : set (before ++ x ∷ array) (length before) w ≡ (before ++ w ∷ []) ++ array =
      set-append before x w array ∙ sym (append_assoc before (w ∷ []) array) in
    let further : length before + 1 ≡ length (before ++ w ∷ []) =
      omega (arith, length-append before (w ∷ [])) in
    rw (here, further)
      (copy_words-parts (before ++ w ∷ []) array ws (omega arith)
        ∙ append_assoc before (w ∷ []) (ws ++ drop (length ws) array))

-- The two loops, and the words that are sent.
eq_payload-parts :
    (stack eqi pas : List ℕ) (pages : ℕ)
    → length stack ≡ 128
    → length eqi ≡ eqi_size
    → pages ≤ 31
    → length (take pages pas) ≡ pages
    → eq_payload stack eqi pas pages
      ≡ eqi ++ (take pages pas ++ take pages (drop (eqi_size + pages) stack))
unfolding eq_payload
eq_payload-parts stack eqi pas pages whole head few copied =
    let sent = take pages pas in
    let rest = drop eqi_size stack in
    let first : copy_words stack 0 eqi ≡ eqi ++ rest =
      copy_words-parts [] stack eqi (omega arith) ∙ ap (λ k. eqi ++ drop k stack) head in
    let second : copy_words (eqi ++ rest) eqi_size sent ≡ eqi ++ (sent ++ drop pages rest) =
      ap (λ k. copy_words (eqi ++ rest) k sent) (sym head)
      ∙ copy_words-parts eqi rest sent (omega (arith, length-drop eqi_size stack))
      ∙ ap (λ k. eqi ++ (sent ++ drop k rest)) copied in
    let left = sent ++ drop pages rest in
    let count : eqi_size + pages * 2 ≡ length eqi + (length sent + pages) = omega arith in
    rw (first, second, count)
      (take-append eqi left (length sent + pages)
        ∙ ap (λ l. eqi ++ l)
            (take-append sent (drop pages rest) pages
              ∙ ap (λ l. sent ++ take pages l) (drop-drop eqi_size pages stack)))

-- For a queue of up to 31 pages, the input of CREATE_EQ, in an array of 128 words, has two words for
-- each page behind those of `EQI`; only the first half of them are words of the address list, and the others are what the
-- stack held.
pub eq_payload-stack :
    (stack : List ℕ) (size uar_index irq_num type phys pages : ℕ)
    → length stack ≡ 128
    → pages ≤ 31
    → let eqi = eqi_words size uar_index irq_num type in
      let payload = eq_payload stack eqi (pas_words phys 0 pages) pages in
      (length payload ≡ eqi_size + 2 * pages)
      × (take pages (drop eqi_size payload) ≡ take pages (pas_words phys 0 pages))
      × (drop (eqi_size + pages) payload ≡ take pages (drop (eqi_size + pages) stack))
eq_payload-stack stack size uar_index irq_num type phys pages whole few =
    let eqi = eqi_words size uar_index irq_num type in
    let pas = pas_words phys 0 pages in
    let left = take pages (drop (eqi_size + pages) stack) in
    let head : length eqi ≡ eqi_size = length-eqi_words size uar_index irq_num type in
    let copied : length (take pages pas) ≡ pages =
      length-take pages pas (omega (arith, length-pas_words phys 0 pages)) in
    let kept : length left ≡ pages =
      length-take pages (drop (eqi_size + pages) stack)
        (omega (arith, length-drop (eqi_size + pages) stack)) in
    rw (eq_payload-parts stack eqi pas pages whole head few copied) (
      omega (
        arith,
        length-append eqi (take pages pas ++ left),
        length-append (take pages pas) left,
        head,
        copied,
        kept,
      ),
      ap (take pages) (drop-append_prefix eqi (take pages pas ++ left) eqi_size 0 head)
          ∙ take-append_prefix (take pages pas) left pages copied,
      drop-append_prefix eqi (take pages pas ++ left) eqi_size pages head
          ∙ ap (λ k. drop k (take pages pas ++ left)) (omega arith)
          ∙ drop-append_prefix (take pages pas) left pages 0 copied,
    )
