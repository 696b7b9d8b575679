-- ===== src/Kern/DirRead/Straddle.antt =====
-- `gas_iterate` on a directory with a full first page: the entries fill 3900 of the 4096 bytes, and
-- the loop goes on while its offset is below 4096.
use gas_filesystem.Base.{
  ℕ, zero, suc, ◌+◌, ◌*◌, ◌<◌, ◌≡◌, Bool, true, arith, some, List, [], ◌∷◌, length, get_elem?, refl,
  lt→ltb,
}
use gas_filesystem.Kern.Types.{dir_entry_size}
use gas_filesystem.Kern.Dir.{Dir, DirEntry, Io, page_size, gas_dir_pages}
use gas_filesystem.Kern.DirRead.{Walk, fault, gas_dir_emit, walk_page, walk_pages, gas_iterate}

module _ (go_on : DirEntry → Bool) where
  -- The actor goes on at every entry of the list.
  abbrev pub GoesOn : List DirEntry → Type 0
  GoesOn page = (k : ℕ) (de : DirEntry) → get_elem? page k ≡ some de → gas_dir_emit go_on de ≡ true

  walk_page-fault :
      (next : ℕ → Walk) (i_size off : ℕ) (page : List DirEntry)
      → off + dir_entry_size * length page ≡ 3900
      → 3900 < i_size
      → GoesOn page
      → walk_page go_on next i_size off off page ≡ fault
  unfolding walk_page
  walk_page-fault next i_size off [] full large on =
      ground (arith, lt→ltb off page_size (omega arith), lt→ltb off i_size (omega arith))
  walk_page-fault next i_size off (de ∷ rest) full large on =
      rw (lt→ltb off page_size (omega arith), lt→ltb off i_size (omega arith), on 0 de refl)
        (walk_page-fault next i_size (off + dir_entry_size) rest (omega arith) large
          λ k. on (suc k))

  first_page-fault :
      (io : Io) (dir : Dir) (page : List DirEntry)
      → dir.pages 0 ≡ some page
      → length page ≡ 15
      → 3900 < dir.i_size
      → GoesOn page
      → (left : ℕ) → 0 < left
      → walk_pages go_on io dir left 0 0 0 ≡ fault
  unfolding walk_pages
  first_page-fault io dir page read full large on zero some_left = absurd (omega arith)
  first_page-fault io dir page read full large on (suc left) some_left =
      rw (read, walk_pages) (walk_page-fault _ dir.i_size 0 page (omega (arith, full)) large on)

-- In a directory of more than 3900 bytes whose first page can be read and has its fifteen entries,
-- `gas_iterate` from the start, with an actor that goes on at each of these entries, reads an entry
-- that reaches over the end of the page.
pub gas_iterate_fault :
    (go_on : DirEntry → Bool) (io : Io) (dir : Dir) (page : List DirEntry)
    → dir.pages 0 ≡ some page
    → length page ≡ 15
    → 3900 < dir.i_size
    → GoesOn go_on page
    → gas_iterate go_on io dir 0 ≡ fault
unfolding gas_iterate gas_dir_pages
gas_iterate_fault go_on io dir page read full large on =
    first_page-fault go_on io dir page read full large on _ (omega arith)
