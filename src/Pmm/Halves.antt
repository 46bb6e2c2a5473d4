-- ===== src/Pmm/Halves.antt =====
-- Splitting and joining held blocks, and writing the order of one, keep the state sound.
use risky.Base.{
  ℕ, suc, ◌+◌, ◌*◌, ◌^◌, ◌<◌, ◌≡◌, none, some, ◌==◌, arith, update, Bool-cases, inl, inr,
}
use risky.Pmm.{Pmm, at_page}
use risky.Pmm.Links.{Links-frame}
use risky.Pmm.Tiling.{split_orders, split-IsTiling, upper_none, join_orders, join-IsTiling}
use risky.Pmm.Invariant.{held, View, Shows, IsSound}

-- The held block becomes two.
abbrev pub halves_view : View → (p o : ℕ) → View
halves_view v p o = record {
  order = split_orders v.order p o;
  kind = update v.kind (p + 2 ^ o) held;
  lists = v.lists;
}

-- Two held halves become one block.
abbrev pub join_view : View → (low o : ℕ) → View
join_view v low o = record { order = join_orders v.order low o; kind = v.kind; lists = v.lists }

module _ {max_pfn : ℕ} {v : View} {s : Pmm} (sound : IsSound max_pfn v s) where
  -- The held block in two held halves.
  pub halves-IsSound :
      (p o : ℕ) → v.order p ≡ some (suc o) → v.kind p ≡ held → IsSound max_pfn (halves_view v p o) s
  halves-IsSound p o e k = record {
    present = sound.present;
    same_max = sound.same_max;
    small = sound.small;
    tiling = split-IsTiling sound.tiling p o e;
    shows = shows;
    lists = sound.lists;
    members = λ r q h. ground (arith, sound.members r q h, upper_none sound.tiling p o e, k);
    listed = λ r q h f. sound.listed r q (ground arith) (ground arith);
  }
    where
      shows :
          (q r : ℕ)
          → split_orders v.order p o q ≡ some r
          → Shows (update v.kind (p + 2 ^ o) held q) r (s.db.page q)
      shows q r h = elim (Bool-cases (q == p + 2 ^ o)) [
        | inl f ↦ rw f tt
        | inr f ↦ rw f (elim (Bool-cases (q == p)) [
          | inl g ↦ let same : q ≡ p = ground arith in rw (same, k) tt
          | inr g ↦ sound.shows q r (ground arith)
        ])
      ]

  -- Two held halves in one held block.
  pub join-IsSound :
      (low o : ℕ)
      → v.order low ≡ some o
      → v.order (low + 2 ^ o) ≡ some o
      → v.kind low ≡ held
      → v.kind (low + 2 ^ o) ≡ held
      → o + 1 < 10
      → (j : ℕ) × (low ≡ j * 2 ^ suc o)
      → IsSound max_pfn (join_view v low o) s
  join-IsSound low o e f k l room even = record {
    present = sound.present;
    same_max = sound.same_max;
    small = sound.small;
    tiling = join-IsTiling sound.tiling low o e f room even;
    shows = shows;
    lists = sound.lists;
    members = λ r q h. ground (arith, sound.members r q h, k, l);
    listed = λ r q h g. sound.listed r q (ground arith) g;
  }
    where
      shows : (q r : ℕ) → join_orders v.order low o q ≡ some r → Shows (v.kind q) r (s.db.page q)
      shows q r h = elim (Bool-cases (q == low)) [
        | inl g ↦ let same : q ≡ low = ground arith in rw (same, k) tt
        | inr g ↦ sound.shows q r (ground arith)
      ]

  -- The order field of a held block may be written.
  pub poke-IsSound :
      (p o : ℕ)
      → v.kind p ≡ held
      → IsSound max_pfn v (record s { db = at_page p (λ q. record q { order = o }) s.db })
  poke-IsSound p o k = record {
    present = sound.present;
    same_max = sound.same_max;
    small = sound.small;
    tiling = sound.tiling;
    shows = shows;
    lists = λ r. record {
      links =
          Links-frame s.db.page (update s.db.page p (record (s.db.page p) { order = o })) none
            (v.lists r) (λ q i. (ground arith, ground arith)) (sound.lists r).links;
      distinct = (sound.lists r).distinct;
      head = (sound.lists r).head;
      count = (sound.lists r).count;
    };
    members = sound.members;
    listed = sound.listed;
  }
    where
      shows :
          (q r : ℕ)
          → v.order q ≡ some r
          → Shows (v.kind q) r (update s.db.page p (record (s.db.page p) { order = o }) q)
      shows q r h = elim (Bool-cases (q == p)) [
        | inl f ↦ let same : q ≡ p = ground arith in rw (same, k) tt
        | inr f ↦ rw f (sound.shows q r h)
      ]
