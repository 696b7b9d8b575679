-- ===== src/Kern/Branch.antt =====
-- kern/gas_itree.c: `gas_get_block` and what it calls. A `block_t *` is a place and an index: place 0
-- is `i_data` of the inode, and any other number is the buffer of the block of that number; 0 is no
-- block. What others do to the tree meanwhile is a parameter. Block numbers are below 2 ^ 31, so that an
-- `int` holds them, and files lie within the reach of triple indirect blocks, so that every offset lies in
-- its block: a file system of more than 2 ^ 31 blocks, or of more than the reach, is outside the model.
pub mod Follow
pub mod Lookup
pub mod Verified
pub mod Alloc
pub mod Loop
pub mod Node
pub mod Splice
pub mod Spliced
pub mod Create
pub mod Get
use gas_filesystem.Base.{
  ℕ, zero, suc, ◌+◌, Option, none, some, List, [], ◌∷◌, ◌==◌, ◌&&◌, ◌||◌, not, Bool, true, false,
  if◌then◌else◌, length, drop,
}
use gas_filesystem.Kern.Types.{GasSbInfo, Errno, eio, eagain, enospc}
use gas_filesystem.Kern.BitOps.{BitOps}
use gas_filesystem.Kern.Bitmap.{Bitmap, gas_new_block, gas_free_block}
use gas_filesystem.Kern.Itree.{block_to_path}

-- What is at a place and an index
abbrev pub Cells : Type 0
Cells = ℕ → ℕ → ℕ

-- `Indirect`: the place stands for the pointer `bh` as well.
pub record Indirect : Type 0 where
  pub place : ℕ
  pub index : ℕ
  pub key : ℕ

-- `add_chain`
abbrev pub add_chain : Cells → (place index : ℕ) → Indirect
add_chain cell place index = record { place = place; index = index; key = cell place index }

-- A store through a `block_t *`
unfoldable pub store_key : Cells → (place index key : ℕ) → Cells
store_key cell place index key b i = if b == place && i == index then key else cell b i

-- `verify_chain`, from the last element to the first
unfoldable pub verify_chain : Cells → List Indirect → Bool
verify_chain cell [] = true
verify_chain cell (p ∷ above) = p.key == cell p.place p.index && verify_chain cell above

-- What `get_branch` returns, with the part of the chain that it filled, the last element first: NULL,
-- or the element at which it stopped, with the error
pub data Branch : Type 0 where
  complete : List Indirect → Branch
  partial : Option Errno → List Indirect → Branch

-- The loop of `get_branch`, in which `p` is the last element and `above` those before it. `reads` says
-- whether `sb_bread` returns a block, and `view level` is what the tree holds at that time.
-- Every offset is one of `block_to_path` within the reach of the tree, hence below `INDIRCOUNT`.
unfoldable pub branch_loop :
    (reads : ℕ → Bool)
    → (view : ℕ → Cells) → (level : ℕ) → (offsets : List ℕ) → Indirect
    → List Indirect
    → Branch
unfolding verify_chain
branch_loop reads view level [] p above = complete (p ∷ above)
branch_loop reads view level (o ∷ offsets) p above =
    let next = add_chain (view level) p.key o in
    let more = branch_loop reads view (level + 1) offsets next (p ∷ above) in
    if not (reads p.key)
    then partial (some eio) (p ∷ above)
    else if not (verify_chain (view level) (p ∷ above))
    then partial (some eagain) (p ∷ above)
    else if next.key == 0
    then partial none (next ∷ p ∷ above)
    else more

unfoldable pub get_branch : (reads : ℕ → Bool) → (view : ℕ → Cells) → List ℕ → Branch
unfolding branch_loop
get_branch reads view [] = partial none []
get_branch reads view (o ∷ offsets) =
    let p = add_chain (view 0) 0 o in
    if p.key == 0 then partial none (p ∷ []) else branch_loop reads view 1 offsets p []

module _ (ops : BitOps) where
  -- The inode and the blocks of its tree, with the bitmap of blocks. `dirty 0` marks the inode.
  pub record Tree : Type 0 where
    pub cell : Cells
    pub map : Bitmap ops
    pub dirty : ℕ → Bool
    pub i_mtime : ℕ
    pub i_ctime : ℕ

  unfoldable pub mark : (place : ℕ) → Bool → Tree → Tree
  mark place v tree = record tree { dirty = λ b. if b == place then v else tree.dirty b }

  -- A new indirect block: zeros, but for one key
  unfoldable pub init_block : (parent index key : ℕ) → Tree → Tree
  unfolding mark
  init_block parent index key tree = mark parent true (record tree {
    cell = λ b i. if b == parent then (if i == index then key else 0) else tree.cell b i;
  })

  module _ (blocksize_bits : ℕ) (sbi : GasSbInfo) where
    -- `bforget` for all elements but the first, and `gas_free_block` for all; the list has the last
    -- element first.
    unfoldable pub forget : List Indirect → Tree → Tree
    unfolding mark
    forget [] tree = tree
    forget (p ∷ []) tree = tree
    forget (p ∷ q ∷ above) tree = mark p.place false (forget (q ∷ above) tree)

    unfoldable pub free_keys : List Indirect → Tree → Tree
    free_keys [] tree = tree
    free_keys (p ∷ above) tree =
        let older = free_keys above tree in
        record older { map = gas_free_block ops blocksize_bits sbi older.map p.key }

    -- The loop of `alloc_branch`: whether it came to the end, and the elements, the last one first
    unfoldable pub alloc_loop :
        (offsets : List ℕ) → (parent : ℕ) → List Indirect → Tree → Bool × List Indirect × Tree
    unfolding init_block
    alloc_loop [] parent got tree = (true, got, tree)
    alloc_loop (o ∷ offsets) parent got tree =
        let (err, nr, map') = gas_new_block ops sbi tree.map in
        let tree' = record tree { map = map' } in
        let more =
          alloc_loop offsets nr (record { place = parent; index = o; key = nr } ∷ got)
            (init_block parent o nr tree') in
        if nr == 0 then (false, got, tree') else more

    -- `alloc_branch` for `where`, the element at which `get_branch` stopped, and the offsets behind it
    -- within the reach of the tree; the numbers of new blocks are below 2 ^ 31.
    unfoldable pub alloc_branch :
        Indirect → (offsets : List ℕ) → Tree → Option Errno × List Indirect × Tree
    unfolding alloc_loop forget free_keys
    alloc_branch p offsets tree =
        let (err, parent, map') = gas_new_block ops sbi tree.map in
        let tree' = record tree { map = map' } in
        let (whole, got, tree'') =
          alloc_loop offsets parent (record p { key = parent } ∷ []) tree' in
        if parent == 0
        then (some enospc, [], tree')
        else if whole
        then (none, got, tree'')
        else (some enospc, got, free_keys got (forget got tree''))

    -- `splice_branch`, for the new element `p`, those before it, and all that were allocated
    unfoldable pub splice_branch :
        (now : ℕ)
        → (above : List Indirect) → Indirect
        → (got : List Indirect) → Tree
        → Option Errno × Tree
    unfolding verify_chain store_key mark forget free_keys
    splice_branch now above p got tree =
        if verify_chain tree.cell above && tree.cell p.place p.index == 0
        then (
          none,
          mark 0 true (
              mark p.place true
                (record tree { cell = store_key tree.cell p.place p.index p.key; i_ctime = now })),
        )
        else (some eagain, free_keys got (forget got tree))

    -- What others do during a round of `gas_get_block`: the tree at each read of `get_branch`, and what
    -- they make of it before `splice_branch`
    pub record Round : Type 0 where
      pub view : Cells → ℕ → Cells
      pub rival : Tree → Tree

    abbrev pub quiet : Round
    quiet = record { view = λ cell level. cell; rival = λ tree. tree }

    -- What `gas_get_block` does: it maps the buffer to a block, which may be new, or maps nothing and
    -- returns 0 or an error.
    pub data Mapping : Type 0 where
      mapped : (nr : ℕ) → (new : Bool) → Mapping
      unmapped : Mapping
      failed : Errno → Mapping

    -- The key of the last element of a chain
    abbrev pub top_key : List Indirect → ℕ
    top_key chain = elim chain [ [] ↦ 0 | p ∷ above ↦ p.key ]

    -- What follows a partial branch without an error, if a block is to be created; `again` is the label
    -- `changed`.
    unfoldable pub create_block :
        (now : ℕ)
        → Round
        → List ℕ
        → Indirect
        → List Indirect
        → (again : Tree → Option (Mapping × Tree)) → Tree
        → Option (Mapping × Tree)
    unfolding alloc_branch splice_branch
    create_block now round offsets p above again tree =
        let (err, got, tree') = alloc_branch p (drop (length above + 1) offsets) tree in
        let first = record p { key = (gas_new_block ops sbi tree.map).1 } in
        let (changed, tree'') = splice_branch now above first got (round.rival tree') in
        elim err [
          | some e ↦ some (failed e, tree')
          | none ↦ elim changed [
            | some _ ↦ again tree''
            | none ↦ some (mapped (top_key got) true, tree'')
          ]
        ]

    -- The label `reread`, once for each round; `none` if the tree changed in every one of them
    unfoldable pub reread :
        (reads : ℕ → Bool)
        → (now : ℕ) → (create : Bool) → List ℕ
        → List Round
        → Tree
        → Option (Mapping × Tree)
    unfolding get_branch create_block
    reread reads now create offsets [] tree = none
    reread reads now create offsets (round ∷ rounds) tree =
        elim (get_branch reads (round.view tree.cell) offsets) [
          | complete chain ↦ some (mapped (top_key chain) false, tree)
          | partial (some eagain) chain ↦
              if create
              then reread reads now create offsets rounds tree
              else some (failed eagain, tree)
          | partial (some e) chain ↦ some (failed e, tree)
          | partial none [] ↦ some (unmapped, tree)
          | partial none (p ∷ above) ↦
              if create
              then create_block now round offsets p above
                  (λ t. reread reads now create offsets rounds t) tree
              else some (unmapped, tree)
        ]

    -- `gas_get_block`, for `ptrs` the `INDIRCOUNT`
    unfoldable pub gas_get_block :
        (reads : ℕ → Bool)
        → (now ptrs block : ℕ) → (create : Bool) → List Round
        → Tree
        → Option (Mapping × Tree)
    unfolding reread
    gas_get_block reads now ptrs block create rounds tree =
        elim (block_to_path ptrs sbi.s_nblocks block) [
          | [] ↦ some (failed eio, tree)
          | o ∷ offsets ↦ reread reads now create (o ∷ offsets) rounds tree
        ]
