-- ===== src/Paging/Space.antt =====
-- The tables of an address space as a tree. `Places` says of each table its level and the indexes
-- that lead to it, the nearest first.
use native.Mathlib.Decide.{dec_lt}
use mathlib.Core.Bool.{true≢false}
use risky.Base.{
  ℕ, suc, ◌+◌, ◌*◌, ◌%◌, ◌^◌, ◌≤◌, ◌<◌, ◌≡◌, ◌≢◌, ap, sym, ◌∙◌, true, false, Option, none, some,
  List, [], ◌∷◌, ◌==◌, arith,
}
use risky.Page.{page_size, phys_to_virt}
use risky.Pmm.{Pmm}
use risky.Pmm.Invariant.{View, Keeps, is_busy, free, IsSound}
use risky.Pmm.Buddy.{two-pow-pos}
use risky.Paging.{Layout, slot}
use risky.Paging.Translate.{is_valid, rights, next_table, is_fault}

abbrev pub Places : Type 0
Places = ℕ → Option (ℕ × List ℕ)

-- The offset of the higher-half map is at a page boundary, and physical addresses have 56 bits.
pub record IsFit (max_pfn : ℕ) (l : Layout) : Type 0 where
  pub aligned : l.offset % page_size ≡ 0
  pub offset_lt : l.offset < 2 ^ 64
  pub frames_lt : max_pfn < 2 ^ 44

-- The table fills a frame of a block of memory that is in use.
pub record IsBacked (v : View) (l : Layout) (table : ℕ) : Type 0 where
  pub frame : ℕ
  pub block : ℕ
  pub order : ℕ
  pub begins : v.order block ≡ some order
  pub busy : is_busy (v.kind block) ≡ true
  pub within : (block ≤ frame) × (frame < block + 2 ^ order)
  pub address : table ≡ phys_to_virt l.offset (frame * page_size)

-- An entry that the processor and the source read in the same way.
pub record IsPlain (level entry : ℕ) : Type 0 where
  pub entry_lt : entry < 2 ^ 54
  pub no_fault : (rights entry == 0) ≡ false → is_fault level entry ≡ false

pub record IsSpace (v : View) (l : Layout) (places : Places) (words : ℕ → ℕ) : Type 0 where
  pub backed : (t : ℕ) (x : ℕ × List ℕ) → places t ≡ some x → IsBacked v l t
  pub plain :
      (t level i : ℕ) (path : List ℕ)
      → places t ≡ some (level, path)
      → i < 512
      → is_valid (words (slot t i)) ≡ true
      → IsPlain level (words (slot t i))
  -- A branch leads to a table of the next level.
  pub child :
      (t level i : ℕ) (path : List ℕ)
      → places t ≡ some (suc level, path)
      → i < 512
      → is_valid (words (slot t i)) ≡ true
      → (rights (words (slot t i)) == 0) ≡ true
      → places (next_table l (words (slot t i))) ≡ some (level, i ∷ path)

-- What `Places` says of one table.
abbrev level_of : Option (ℕ × List ℕ) → ℕ
level_of none = 0
level_of (some x) = x.0

abbrev path_of : Option (ℕ × List ℕ) → List ℕ
path_of none = []
path_of (some x) = x.1

pub same_place :
    (places : Places) {t t' level level' : ℕ} {path path' : List ℕ}
    → places t ≡ some (level, path)
    → places t' ≡ some (level', path')
    → t' ≡ t
    → (level' ≡ level) × (path' ≡ path)
same_place places e e' same =
    let eq = sym e' ∙ ap places same ∙ e in (ap level_of eq, ap path_of eq)

pub Keeps-IsBacked :
    {v v' : View} {l : Layout} {t : ℕ} → Keeps v v' → IsBacked v l t → IsBacked v' l t
Keeps-IsBacked k b =
    let kept = k b.block b.order b.begins b.busy in
    record {
      frame = b.frame;
      block = b.block;
      order = b.order;
      begins = kept.0;
      busy = ap is_busy (kept.1) ∙ b.busy;
      within = b.within;
      address = b.address;
    }

module _ {max_pfn : ℕ} {l : Layout} (fit : IsFit max_pfn l) where
  pub backed_aligned : {v : View} {t : ℕ} → IsBacked v l t → t % page_size ≡ 0
  backed_aligned b = omega (arith, b.address, fit.aligned)

  -- The words of two tables are different.
  pub slots_apart :
      {v : View} (t t' i i' : ℕ)
      → IsBacked v l t
      → IsBacked v l t'
      → i < 512
      → i' < 512
      → slot t i ≡ slot t' i'
      → (t ≡ t') × (i ≡ i')
  slots_apart t t' i i' b b' h h' e =
      let a = backed_aligned b in
      let a' = backed_aligned b' in let same : t ≡ t' = omega arith in (same, omega arith)

  -- A page that has just been allocated is not a table yet.
  pub page_unplaced :
      {v : View} {s : Pmm} (sound : IsSound max_pfn v s) (page above t : ℕ)
      → v.order page ≡ some above
      → v.kind page ≡ free
      → IsBacked v l t
      → t ≢ phys_to_virt l.offset (page * page_size)
  page_unplaced {v} sound page above t e k b at = elim (dec_lt b.block page) [
    | yes lt ↦ absurd (
        omega (
          arith,
          same_frame,
          b.within,
          sound.tiling.apart b.block page b.order above b.begins e lt,
        ))
    | no ge ↦ taken (omega (arith, same_frame, b.within))
  ]
    where
      same_frame : b.frame ≡ page
      same_frame = omega (
        arith,
        sound.tiling.fits b.block b.order b.begins,
        sound.tiling.fits page above e,
        two-pow-pos above,
        b.within,
        b.address,
        at,
        fit.aligned,
        fit.offset_lt,
        fit.frames_lt,
      )

      taken : b.block ≡ page → ⊥
      taken same = true≢false (sym b.busy ∙ ap (λ (q : ℕ). is_busy (v.kind q)) same ∙ ap is_busy k)
