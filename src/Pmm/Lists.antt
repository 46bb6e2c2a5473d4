-- ===== src/Pmm/Lists.antt =====
-- `pmm_list_push` and `pmm_list_remove` refine insertion into and removal from the lists of
-- pages that the free lists stand for, and leave the lists of the other orders alone.
use risky.Base.{
  ℕ, ◌+◌, ◌^◌, ◌<◌, ◌≡◌, ◌≢◌, refl, true, false, none, some, List, [], ◌∷◌, length, head?, has,
  Distinct, arith, ◌==◌, eq_self, u64, sub64,
}
use risky.Pmm.{Pmm, pmm_list_push, pmm_list_remove}
use risky.Pmm.Links.{
  Links, points, IsList, Links-frame, Links-erase, erase, Distinct-erase, length-erase, push_prev,
  push_next, remove_prev, remove_next, next_out, prev_out, prev_is_some,
}

module _ (s : Pmm) (order page : ℕ) where
  push_lists_self :
      ((pmm_list_push order page s).lists order)
      ≡ record { head = some page; count = u64 ((s.lists order).count + 1) }
  unfolding pmm_list_push
  push_lists_self = ground arith

  push_lists_ne : (o : ℕ) → o ≢ order → (pmm_list_push order page s).lists o ≡ s.lists o
  unfolding pmm_list_push
  push_lists_ne o ne = ground arith

  remove_lists_self : (pmm_list_remove order page s).lists order ≡ record {
    head = elim (s.db.page page).prev [
      | none ↦ (s.db.page page).next
      | some _ ↦ (s.lists order).head
    ];
    count = sub64 (s.lists order).count 1;
  }
  unfolding pmm_list_remove
  remove_lists_self = ground arith

  remove_lists_ne : (o : ℕ) → o ≢ order → (pmm_list_remove order page s).lists o ≡ s.lists o
  unfolding pmm_list_remove
  remove_lists_ne o ne = ground arith

  push_front :
      (xs : List ℕ)
      → Links s.db.page none xs
      → Distinct xs
      → has page xs ≡ false
      → (s.lists order).head ≡ head? xs
      → Links (pmm_list_push order page s).db.page (some page) xs
  push_front [] l d out h = tt
  push_front (x ∷ xs) l d out h = (
    ground (arith, push_prev s order page x, eq_self x),
    ground (arith, push_next s order page x),
    Links-frame s.db.page (pmm_list_push order page s).db.page (some x) xs
        (λ q i.
          (ground (arith, push_next s order page q), ground (arith, push_prev s order page q)))
        l.2,
  )

  -- Where the list of an order stands for `xs`, whose length can still be counted in 64 bits, and
  -- the page is not in it, the list stands for the page and then `xs` after `pmm_list_push`: the
  -- links both ways, the head and the count.
  pub push-IsList :
      (xs : List ℕ)
      → IsList s order xs
      → has page xs ≡ false
      → length xs + 1 < 2 ^ 64
      → IsList (pmm_list_push order page s) order (page ∷ xs)
  push-IsList xs is out small = record {
    links = (
      ground (arith, push_prev s order page page, is.head, head_out xs out, eq_self page),
      ground (arith, push_next s order page page, is.head, eq_self page),
      push_front xs is.links is.distinct out is.head,
    );
    distinct = (out, is.distinct);
    head = rw push_lists_self;
    count = rw push_lists_self (omega (arith, is.count));
  }
    where
      head_out : (xs : List ℕ) → has page xs ≡ false → points (head? xs) page ≡ false
      head_out [] out = refl
      head_out (x ∷ xs) out = ground arith

  -- The list of another order stays, if it shares no page with what is written.
  pub push_other :
      (xs ys : List ℕ) (o : ℕ)
      → o ≢ order
      → IsList s order xs
      → IsList s o ys
      → has page ys ≡ false
      → ((q : ℕ) → has q ys ≡ true → has q xs ≡ false)
      → IsList (pmm_list_push order page s) o ys
  push_other xs ys o ne is js out apart = record {
    links =
        Links-frame s.db.page (pmm_list_push order page s).db.page none ys
          (λ q i. (
            ground (arith, push_next s order page q),
            ground (arith, push_prev s order page q, head_ne xs q (apart q i), is.head),
          ))
          js.links;
    distinct = js.distinct;
    head = rw (push_lists_ne o ne) js.head;
    count = rw (push_lists_ne o ne) js.count;
  }
    where
      head_ne : (xs : List ℕ) (q : ℕ) → has q xs ≡ false → points (head? xs) q ≡ false
      head_ne [] q out = refl
      head_ne (x ∷ xs) q out = ground arith

  -- Where the list of an order stands for `xs`, whose length fits in 64 bits, and the page is in
  -- it, the list stands for `xs` without the page after `pmm_list_remove`.
  pub remove-IsList :
      (xs : List ℕ)
      → IsList s order xs
      → has page xs ≡ true
      → length xs < 2 ^ 64
      → IsList (pmm_list_remove order page s) order (erase page xs)
  remove-IsList xs is i small = record {
    links =
        Links-erase s.db.page (pmm_list_remove order page s).db.page page (remove_next s order page)
          (remove_prev s order page) none xs is.links is.distinct i (λ q j. refl);
    distinct = Distinct-erase page xs is.distinct;
    head = rw remove_lists_self (new_head xs is.links is.distinct is.head i);
    count = rw remove_lists_self (omega (arith, is.count, length-erase page xs i));
  }
    where
      next_head :
          (x : ℕ) (xs : List ℕ) → Links s.db.page none (x ∷ xs) → (s.db.page x).next ≡ head? xs
      next_head x xs l = l.1

      new_head :
          (xs : List ℕ)
          → Links s.db.page none xs
          → Distinct xs
          → (s.lists order).head ≡ head? xs
          → has page xs ≡ true
          → (elim (s.db.page page).prev [
            | none ↦ (s.db.page page).next
            | some _ ↦ (s.lists order).head
          ])
            ≡ head? (erase page xs)
      new_head [] l d h i = cc
      new_head (x ∷ xs) l d h i =
          ground (arith, prev_is_some s.db.page x page xs l.2, next_head x xs l)

  pub remove_other :
      (xs ys : List ℕ) (o : ℕ)
      → o ≢ order
      → IsList s order xs
      → has page xs ≡ true
      → IsList s o ys
      → ((q : ℕ) → has q ys ≡ true → has q xs ≡ false)
      → IsList (pmm_list_remove order page s) o ys
  remove_other xs ys o ne is i js apart = record {
    links =
        Links-frame s.db.page (pmm_list_remove order page s).db.page none ys
          (λ q j. (
            ground (
              arith,
              remove_next s order page q,
              apart q j,
              prev_out s.db.page none page q xs is.links i,
              not_page q j,
            ),
            ground (
              arith,
              remove_prev s order page q,
              apart q j,
              next_out s.db.page none page q xs is.links i,
              not_page q j,
            ),
          ))
          js.links;
    distinct = js.distinct;
    head = rw (remove_lists_ne o ne) js.head;
    count = rw (remove_lists_ne o ne) js.count;
  }
    where
      not_page : (q : ℕ) → has q ys ≡ true → (q == page) ≡ false
      not_page q j = ground (arith, apart q j)
