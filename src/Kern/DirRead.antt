-- ===== src/Kern/DirRead.antt =====
-- kern/gas_dir.c: reading a directory in order, and finding a name by it. `dir_emit` calls the actor of
-- the context and says whether to go on; what it does is a parameter, the test `go_on`. A read of an
-- entry that does not lie inside the page is a fault. From a position that is no multiple of the size of
-- an entry, what the machine reads in the page is `entries_at`.
pub mod Straddle
use gas_filesystem.Base.{
  ℕ, zero, suc, ◌+◌, ◌-◌, ◌*◌, ◌/◌, ◌%◌, Option, none, some, List, [], ◌∷◌, ◌==◌, ◌&&◌, not, ltb,
  leb, Bool, true, false, if◌then◌else◌, length, drop,
}
use gas_filesystem.Kern.Types.{Errno, dir_entry_size}
use gas_filesystem.Kern.Dir.{Dir, DirEntry, Io, page_size, gas_dir_pages, same_prefix}

-- How a walk ends: at the end of the directory, at an entry for which the actor said stop, at a page
-- that cannot be read, or with a read outside a page
pub data Walk : Type 0 where
  finished : (pos : ℕ) → Walk
  stopped : (pos : ℕ) → DirEntry → Walk
  failed : Errno → Walk
  fault : Walk

-- `gas_dir_emit`: whether to go on
unfoldable pub gas_dir_emit : (go_on : DirEntry → Bool) → DirEntry → Bool
gas_dir_emit go_on de = if de.de_inode == 0 then true else go_on de

module _ (go_on : DirEntry → Bool) where
  -- The inner loop of `gas_iterate`: the list holds the entries from `off` on, and `next` is the rest
  -- of the outer loop.
  unfoldable pub walk_page : (next : ℕ → Walk) → (i_size off pos : ℕ) → List DirEntry → Walk
  unfolding gas_dir_emit
  walk_page next i_size off pos [] = if ltb off page_size && ltb pos i_size then fault else next pos
  walk_page next i_size off pos (de ∷ rest) =
      let more = walk_page next i_size (off + dir_entry_size) (pos + dir_entry_size) rest in
      if ltb off page_size && ltb pos i_size
      then (if gas_dir_emit go_on de then more else stopped pos de)
      else next pos

  -- The outer loop, for `left` pages from page `pidx` on
  unfoldable pub walk_pages : Io → Dir → (left pidx off pos : ℕ) → Walk
  unfolding walk_page
  walk_pages io dir zero pidx off pos = finished pos
  walk_pages io dir (suc left) pidx off pos = elim (dir.pages pidx) [
    | none ↦ failed (io.page_error pidx)
    | some page ↦
        walk_page (λ pos'. walk_pages io dir left (pidx + 1) 0 pos') dir.i_size off pos
          (if off % dir_entry_size == 0
            then drop (off / dir_entry_size) page
            else io.entries_at off page)
  ]

  unfoldable pub gas_iterate : Io → Dir → (pos : ℕ) → Walk
  unfolding walk_pages
  gas_iterate io dir pos =
      walk_pages io dir (gas_dir_pages dir.i_size - pos / page_size) (pos / page_size)
        (pos % page_size) pos

-- `gas_match`, as the actor of `gas_inode_by_name`: `dir_emit` goes on while the actor returns 0.
unfoldable pub gas_match : List ℕ → DirEntry → Bool
gas_match name de =
    if not (length de.de_name == length name)
    then false
    else same_prefix (length de.de_name) de.de_name name

-- The inode of a name, or 0
unfoldable pub gas_inode_by_name : Io → Dir → List ℕ → Option ℕ
gas_inode_by_name io dir name = elim (gas_iterate (λ de. not (gas_match name de)) io dir 0) [
  | stopped pos de ↦ some de.de_inode
  | fault ↦ none
  | finished pos ↦ some 0
  | failed e ↦ some 0
]
