-- ===== src/Kern/Branch/Get.antt =====
-- `gas_get_block` of kern/gas_itree.c when nobody else changes the tree: the numbers of the blocks of a
-- file are a reference for it.
use mathlib.Core.Path.{subst}
use gas_filesystem.Base.{
  ℕ, ◌^◌, ◌+◌, ◌*◌, ◌≡◌, ◌≤◌, ◌<◌, refl, sym, ◌∙◌, ◌≢◌, ap, arith, Bool, true, false, ◌==◌,
  if◌then◌else◌, List, [], ◌∷◌, ◌++◌, Option, none, some, ne→==,
}
use gas_filesystem.Kern.Types.{GasSbInfo, eio, eagain, enospc}
use gas_filesystem.Kern.BitOps.{BitOps}
use gas_filesystem.Kern.Itree.{dircount, block_to_path}
use gas_filesystem.Kern.Itree.Path.{path_to_block, path_to_block-block_to_path}
use gas_filesystem.Kern.Branch.{
  Cells, Tree, Mapping, mapped, unmapped, failed, Round, quiet, create_block, reread, get_branch,
  Branch, complete, partial, gas_get_block, top_key,
}
use gas_filesystem.Kern.Branch.Follow.{follow, follow-append, Reaches}
use gas_filesystem.Kern.Branch.Lookup.{Looked, found, missing, get_branch-Looked}
use gas_filesystem.Kern.Branch.Node.{IsWhole, IsTree}
use gas_filesystem.Kern.Branch.Create.{Created, present, added, no_room, create_block-Created}

block_to_path-IsWhole :
    (ptrs nblocks block : ℕ)
    → block < nblocks
    → nblocks ≤ 2 ^ 63
    → IsWhole (block_to_path ptrs nblocks block)
unfolding block_to_path
block_to_path-IsWhole ptrs nblocks block inside small = ground arith

module _ (ptrs nblocks : ℕ) (small : nblocks ≤ 2 ^ 63) where
  block_to_path-injective :
      (block other : ℕ)
      → block < nblocks
      → other < nblocks
      → block_to_path ptrs nblocks other ≡ block_to_path ptrs nblocks block
      → other ≡ block
  block_to_path-injective block other inside inside' e =
      let there : some other ≡ some block =
        sym (path_to_block-block_to_path ptrs nblocks other inside' small)
        ∙ (ap (path_to_block ptrs) e
            ∙ path_to_block-block_to_path ptrs nblocks block inside small) in
      cc (there)

-- The number of a block of the file, or 0 where the file has none
abbrev pub block_at : (ptrs nblocks : ℕ) → Cells → (block : ℕ) → ℕ
block_at ptrs nblocks cell block = follow cell 0 (block_to_path ptrs nblocks block)

module _ (ops : BitOps) (blocksize_bits : ℕ) (sbi : GasSbInfo) (reads : ℕ → Bool)
    (all_read : (b : ℕ) → reads b ≡ true) (now : ℕ)
    (rounds : List (Round ops blocksize_bits sbi)) where
  abbrev Answer : Type 0
  Answer = Option (Mapping ops blocksize_bits sbi × Tree ops)

  abbrev run : (create : Bool) → List ℕ → Tree ops → Answer
  run create path tree =
      reread ops blocksize_bits sbi reads now create path (quiet ops blocksize_bits sbi ∷ rounds)
        tree

  -- What follows `get_branch`
  abbrev after : (create : Bool) → List ℕ → Tree ops → Branch → Answer
  after create path tree b = elim b [
    | complete chain ↦ some (mapped (top_key ops blocksize_bits sbi chain) false, tree)
    | partial (some eagain) chain ↦
        if create
        then reread ops blocksize_bits sbi reads now create path rounds tree
        else some (failed eagain, tree)
    | partial (some e) chain ↦ some (failed e, tree)
    | partial none [] ↦ some (unmapped, tree)
    | partial none (p ∷ above) ↦
        if create
        then create_block ops blocksize_bits sbi now (quiet ops blocksize_bits sbi) path p above
            (λ t. reread ops blocksize_bits sbi reads now create path rounds t) tree
        else some (unmapped, tree)
  ]

  run-after :
      (create : Bool) (path : List ℕ) (tree : Tree ops)
      → run create path tree ≡ after create path tree (get_branch reads (λ _. tree.cell) path)
  unfolding reread
  run-after create path tree = refl

  missing_follow :
      (cell : Cells) (path : List ℕ) (pl ix : ℕ) (pre rest : List ℕ)
      → pre ++ ix ∷ rest ≡ path
      → pl ≡ follow cell 0 pre
      → Reaches cell 0 pre
      → cell pl ix ≡ 0
      → follow cell 0 path ≡ 0
  unfolding follow
  missing_follow cell path pl ix pre rest parts place reach empty =
      ap (follow cell 0) (sym parts)
      ∙ (follow-append cell 0 pre (ix ∷ rest) reach ∙ at_empty (follow cell 0 pre) (sym place))
    where
      at_empty : (b : ℕ) → b ≡ pl → follow cell b (ix ∷ rest) ≡ 0
      at_empty b e = rw (e, empty) refl

  -- The answer, if no block is to be created
  abbrev looked_up : Tree ops → ℕ → Answer
  looked_up tree nr = some (if nr == 0 then unmapped else mapped nr false, tree)

  Looked-looked_up :
      (tree : Tree ops) (path : List ℕ) (b : Branch)
      → Looked tree.cell path b
      → after false path tree b ≡ looked_up tree (follow tree.cell 0 path)
  Looked-looked_up tree path b (found p above key ne) = rw (← key, ne→== p.key 0 ne) refl
  Looked-looked_up tree path b (missing p above pre rest parts len place reach empty stable) =
      rw (missing_follow tree.cell path p.place p.index pre rest parts place reach empty) refl

  Looked-Created :
      (super_used : 0 < sbi.s_data_block_start) (tree : Tree ops)
      (is_tree : IsTree ops blocksize_bits sbi tree) (path : List ℕ) (whole : IsWhole path)
      (b : Branch)
      → Looked tree.cell path b
      → Created ops blocksize_bits sbi super_used now path whole tree is_tree
          (after true path tree b)
  Looked-Created super_used tree is_tree path whole b (found p above key ne) =
      subst
        (λ k.
          Created ops blocksize_bits sbi super_used now path whole tree is_tree
            (some (mapped k false, tree)))
        (sym key) (present (λ e. ne (key ∙ e)))
  Looked-Created super_used tree is_tree path whole b
        (missing p above pre rest parts len place reach empty stable) =
      create_block-Created ops blocksize_bits sbi super_used now path whole tree is_tree p above pre
        rest parts place reach empty stable
        (λ t. reread ops blocksize_bits sbi reads now true path rounds t) len

  module _ (ptrs : ℕ) (small : sbi.s_nblocks ≤ 2 ^ 63) (tree : Tree ops) where
    abbrev at_block : Tree ops → ℕ → ℕ
    at_block t block = block_at ptrs sbi.s_nblocks t.cell block

    -- If every block of the disk can be read and nobody else changes the tree, `gas_get_block`
    -- without `create`, for a block of a file below the number of blocks of the file system, which
    -- is at most 2 ^ 63, changes nothing; it maps the block to which the keys along its path lead,
    -- or no block if one of them is 0.
    pub gas_get_block_lookup :
        (block : ℕ)
        → block < sbi.s_nblocks
        → gas_get_block ops blocksize_bits sbi reads now ptrs block false
            (quiet ops blocksize_bits sbi ∷ rounds)
            tree
          ≡ some (
            if at_block tree block == 0 then unmapped else mapped (at_block tree block) false,
            tree,
          )
    unfolding gas_get_block
    gas_get_block_lookup block inside =
        by_path (block_to_path ptrs sbi.s_nblocks block)
          (block_to_path-IsWhole ptrs sbi.s_nblocks block inside small)
      where
        by_path :
            (path : List ℕ)
            → IsWhole path
            → elim path [
              | [] ↦ some (failed eio, tree)
              | o ∷ offsets ↦ run false (o ∷ offsets) tree
            ]
              ≡ looked_up tree (follow tree.cell 0 path)
        by_path [] whole = absurd whole
        by_path (o ∷ offsets) whole =
            run-after false (o ∷ offsets) tree
            ∙ Looked-looked_up tree (o ∷ offsets) _
                (get_branch-Looked reads tree.cell all_read o offsets)

    -- What `gas_get_block` makes of the blocks of a file
    pub data Got (block : ℕ) : Answer → Type 0 where
      got_present :
          at_block tree block ≢ 0 → Got block (some (mapped (at_block tree block) false, tree))
      got_added :
          (nr : ℕ) (tree' : Tree ops)
          → at_block tree block ≡ 0
          → nr ≢ 0
          → at_block tree' block ≡ nr
          → ((other : ℕ)
              → other < sbi.s_nblocks
              → other ≢ block
              → at_block tree' other ≡ at_block tree other)
          → IsTree ops blocksize_bits sbi tree'
          → Got block (some (mapped nr true, tree'))
      got_no_room :
          (tree' : Tree ops)
          → at_block tree block ≡ 0
          → ((other : ℕ) → other < sbi.s_nblocks → at_block tree' other ≡ at_block tree other)
          → Got block (some (failed enospc, tree'))

    -- If the data area begins behind block 0, every block of the disk can be read, nobody else
    -- changes the tree, the bitmap of blocks is valid, and every block of the tree is marked in it
    -- and stands at one place of the tree only, then for a block of a file below the number of
    -- blocks of the file system, which is at most 2 ^ 31 and no more than triple indirect blocks
    -- reach, `gas_get_block` with `create` does one of three things: it maps a block that is there
    -- and changes nothing; or it adds a block where there was none and maps it, so that a lookup
    -- finds it, every other block of the file is where it was, and the tree and the bitmap are again
    -- such; or it reports `ENOSPC`, and then there was no such block and every block of the file is
    -- where it was.
    pub gas_get_block-Got :
        0 < sbi.s_data_block_start
        → sbi.s_nblocks ≤ 2 ^ 31
        → sbi.s_nblocks ≤ dircount + ptrs + ptrs * ptrs + ptrs * ptrs * ptrs
        → IsTree ops blocksize_bits sbi tree
        → (block : ℕ) → block < sbi.s_nblocks
        → Got block (
            gas_get_block ops blocksize_bits sbi reads now ptrs block true
              (quiet ops blocksize_bits sbi ∷ rounds)
              tree)
    unfolding gas_get_block
    gas_get_block-Got super_used fits reached is_tree block inside = by_created _ (
        by_path (block_to_path ptrs sbi.s_nblocks block)
          (block_to_path-IsWhole ptrs sbi.s_nblocks block inside small))
      where
        by_path :
            (path : List ℕ) (whole : IsWhole path)
            → Created ops blocksize_bits sbi super_used now path whole tree is_tree (elim path [
              | [] ↦ some (failed eio, tree)
              | o ∷ offsets ↦ run true (o ∷ offsets) tree
            ])
        by_path [] whole = absurd whole
        by_path (o ∷ offsets) whole =
            subst (Created ops blocksize_bits sbi super_used now (o ∷ offsets) whole tree is_tree)
              (sym (run-after true (o ∷ offsets) tree))
              (Looked-Created super_used tree is_tree (o ∷ offsets) whole _
                (get_branch-Looked reads tree.cell all_read o offsets))

        by_created :
            (answer : Answer)
            → Created ops blocksize_bits sbi super_used now
                (block_to_path ptrs sbi.s_nblocks block)
                (block_to_path-IsWhole ptrs sbi.s_nblocks block inside small)
                tree
                is_tree
                answer
            → Got block answer
        by_created answer (present ne) = got_present ne
        by_created answer (added nr tree' empty at_end ne others keeps) =
            got_added nr tree' empty ne at_end
              (λ other inside' apart.
                others (block_to_path ptrs sbi.s_nblocks other)
                  (block_to_path-IsWhole ptrs sbi.s_nblocks other inside' small)
                  (λ e. apart (
                    block_to_path-injective ptrs sbi.s_nblocks small block other inside inside' e)))
              keeps
        by_created answer (no_room tree' empty same) = got_no_room tree' empty (λ other inside'.
            same (block_to_path ptrs sbi.s_nblocks other)
              (block_to_path-IsWhole ptrs sbi.s_nblocks other inside' small))
