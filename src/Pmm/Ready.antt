-- ===== src/Pmm/Ready.antt =====
-- The state between two calls of the allocator.
use native.Mathlib.Nat.{pow-le-pow_right}
use risky.Base.{ℕ, ◌^◌, ◌≤◌, ◌<◌, ◌≡◌, true, arith}
use risky.Pmm.{Pmm}
use risky.Pmm.Invariant.{View, IsSound, Settled, weigh}

-- Sound, with no operation under way, and `g_free_pages` counts the frames of the free lists.
pub record IsReady (max_pfn : ℕ) (v : View) (s : Pmm) : Type 0 where
  pub sound : IsSound max_pfn v s
  pub settled : Settled v
  pub ready : s.ready ≡ true
  pub counted : s.free_pages ≡ weigh 10 v.lists

pub two-pow-le : (o : ℕ) → o < 10 → 2 ^ o ≤ 512
two-pow-le o h = pow-le-pow_right {n = 2} (omega arith) {i = o} {j = 9} (omega arith)
