-- ===== src/Compact/Sorted.antt =====
-- The order in which the planner meets the blocks.
use ozymandias.Base.{ℕ, ◌≤◌, ◌≡◌, true, false, List, [], ◌∷◌, All, arith, Bool-cases, inl, inr}
use ozymandias.Compact.{Block, is_older, insert_block, sort_blocks}

-- In the order of their starts.
abbrev pub IsSorted : List Block → Type 0
IsSorted [] = Unit {0}
IsSorted (b ∷ bs) = All (λ (c : Block). b.meta.min_time ≤ c.meta.min_time) bs × IsSorted bs

module _ (P : Block → Type 0) where
  All-insert_block : (b : Block) (bs : List Block) → P b → All P bs → All P (insert_block b bs)
  unfolding insert_block
  All-insert_block b [] p h = (p, tt)
  All-insert_block b (c ∷ cs) p (q, h) = elim (Bool-cases (is_older c b)) [
    | inl older ↦ rw older (q, All-insert_block b cs p h)
    | inr newer ↦ rw newer (p, (q, h))
  ]

  All-sort_blocks : (bs : List Block) → All P bs → All P (sort_blocks bs)
  unfolding sort_blocks
  All-sort_blocks [] h = tt
  All-sort_blocks (b ∷ bs) (p, h) = All-insert_block b (sort_blocks bs) p (All-sort_blocks bs h)

older_starts : (a b : Block) → is_older a b ≡ true → a.meta.min_time ≤ b.meta.min_time
unfolding is_older
older_starts a b e = ground (arith, e)

newer_starts : (a b : Block) → is_older a b ≡ false → b.meta.min_time ≤ a.meta.min_time
unfolding is_older
newer_starts a b e = ground (arith, e)

starts_later :
    (s t : ℕ) (bs : List Block)
    → s ≤ t
    → All (λ (c : Block). t ≤ c.meta.min_time) bs
    → All (λ (c : Block). s ≤ c.meta.min_time) bs
starts_later s t [] l h = tt
starts_later s t (b ∷ bs) l (a, h) = (omega (arith, a), starts_later s t bs l h)

insert_block-IsSorted : (b : Block) (bs : List Block) → IsSorted bs → IsSorted (insert_block b bs)
unfolding insert_block
insert_block-IsSorted b [] h = (tt, tt)
insert_block-IsSorted b (c ∷ cs) (a, h) = elim (Bool-cases (is_older c b)) [
  | inl older ↦ rw older (
    All-insert_block (λ (d : Block). c.meta.min_time ≤ d.meta.min_time) b cs
        (older_starts c b older) a,
    insert_block-IsSorted b cs h,
  )
  | inr newer ↦
      let first = newer_starts c b newer in
      rw newer ((first, starts_later b.meta.min_time c.meta.min_time cs first a), (a, h))
]

pub sort_blocks-IsSorted : (bs : List Block) → IsSorted (sort_blocks bs)
unfolding sort_blocks
sort_blocks-IsSorted [] = tt
sort_blocks-IsSorted (b ∷ bs) = insert_block-IsSorted b (sort_blocks bs) (sort_blocks-IsSorted bs)
