-- ===== src/Core/Counters/Allocation.antt =====
-- Sequences of allocations on the cache of counters.rs.
use slateduck.Prelude.{ℕ, suc, ◌+◌, ◌^◌, ◌≤◌, ◌<◌, ◌≡◌, refl, List, [], ◌∷◌, arith, length}
use slateduck.Core.Counters.{CounterCache, alloc_snapshot_id, alloc_catalog_id, alloc_file_id}

pub data Request : Type 0 where
  snapshot catalog file : Request

-- One allocation of the writer.
unfoldable pub serve : Request → CounterCache → ℕ × CounterCache
unfolding alloc_snapshot_id alloc_catalog_id alloc_file_id
serve Request.snapshot c = alloc_snapshot_id c
serve Request.catalog c = alloc_catalog_id c
serve Request.file c = alloc_file_id c

-- The next id of the domain of a request.
abbrev pub next_of : Request → CounterCache → ℕ
next_of Request.snapshot c = c.next_snapshot_id
next_of Request.catalog c = c.next_catalog_id
next_of Request.file c = c.next_file_id

unfoldable pub run : List Request → CounterCache → CounterCache
unfolding serve
run [] c = c
run (q ∷ qs) c = run qs (serve q c).1

-- No counter is within `n` of the top.
pub record HasRoom (n : ℕ) (c : CounterCache) : Type 0 where
  pub snapshots : c.next_snapshot_id + n < 2 ^ 64
  pub catalogs : c.next_catalog_id + n < 2 ^ 64
  pub files : c.next_file_id + n < 2 ^ 64

serve-HasRoom :
    (n : ℕ) (q : Request) (c : CounterCache) → HasRoom (suc n) c → HasRoom n (serve q c).1
unfolding serve
serve-HasRoom n Request.snapshot c h = ground arith
serve-HasRoom n Request.catalog c h = ground arith
serve-HasRoom n Request.file c h = ground arith

serve_grows :
    (n : ℕ) (p q : Request) (c : CounterCache)
    → HasRoom (suc n) c
    → next_of p c ≤ next_of p (serve q c).1
unfolding serve
serve_grows n Request.snapshot q c h = ground arith
serve_grows n Request.catalog q c h = ground arith
serve_grows n Request.file q c h = ground arith

serve_id : (p : Request) (c : CounterCache) → (serve p c).0 ≡ next_of p c
unfolding serve
serve_id Request.snapshot c = refl
serve_id Request.catalog c = refl
serve_id Request.file c = refl

serve_next :
    (n : ℕ) (p : Request) (c : CounterCache)
    → HasRoom (suc n) c
    → next_of p (serve p c).1 ≡ next_of p c + 1
unfolding serve
serve_next n Request.snapshot c h = ground arith
serve_next n Request.catalog c h = ground arith
serve_next n Request.file c h = ground arith

run_grows :
    (qs : List Request) (p : Request) (c : CounterCache)
    → HasRoom (length qs) c
    → next_of p c ≤ next_of p (run qs c)
unfolding run
run_grows [] p c h = omega arith
run_grows (q ∷ qs) p c h = omega (
  arith,
  serve_grows (length qs) p q c h,
  run_grows qs p (serve q c).1 (serve-HasRoom (length qs) q c h),
)

-- However many allocations lie between them, two requests of one domain get distinct ids, the
-- later one the greater, while the counters have room for them.
pub ids_fresh :
    (p : Request) (qs : List Request) (c : CounterCache)
    → HasRoom (length qs + 2) c
    → (serve p c).0 < (serve p (run qs (serve p c).1)).0
ids_fresh p qs c h =
    let k = length qs in
    omega (
      arith,
      serve_id p c,
      serve_id p (run qs (serve p c).1),
      serve_next k p c (omega arith),
      run_grows qs p (serve p c).1 (serve-HasRoom k p c (omega arith)),
    )
