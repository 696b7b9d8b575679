-- ===== src/Kern/Dir.antt =====
-- kern/gas_dir.c: directories. A page is the list of the fifteen entries that fit into its 4096 bytes;
-- the 196 bytes behind them belong to none. A directory has for each page number what
-- `read_mapping_page` returns, `none` for an error. A name is its bytes without the closing zero.
-- What the module calls of the kernel are parameters: the errors of `__block_write_begin` and
-- `write_one_page` by position, and the time.
pub mod Find
pub mod Names
use mathlib.Core.Option
use gas_filesystem.Base.{
  ℕ, zero, suc, ◌+◌, ◌-◌, ◌*◌, ◌/◌, ◌%◌, Option, none, some, List, [], ◌∷◌, ◌==◌, ◌&&◌, ◌||◌, not,
  ltb, leb, Bool, true, false, if◌then◌else◌, get_elem?, set, replicate,
}
use gas_filesystem.Kern.Types.{Errno, eexist, einval, enomem, eio, dir_entry_size, gas_max_name_len}

-- `struct gas_dir_entry`
pub record DirEntry : Type 0 where
  pub de_name : List ℕ
  pub de_inode : ℕ

-- The inode of a directory with its pages
pub record Dir : Type 0 where
  pub i_ino : ℕ
  pub i_size : ℕ
  pub i_mtime : ℕ
  pub i_ctime : ℕ
  pub dirty : Bool
  pub pages : ℕ → Option (List DirEntry)

-- The kernel around an operation: `__block_write_begin` at a position, the commit of the page, the
-- error of a page that cannot be read, and `CURRENT_TIME_SEC`. `entries_at` is how the machine reads a
-- page from an offset on that is no multiple of the size of an entry: as the entries that still lie in it.
pub record Io : Type 0 where
  pub write_begin : ℕ → Option Errno
  pub write_page : ℕ → Option Errno
  pub page_error : ℕ → Errno
  pub now : ℕ
  pub entries_at : ℕ → List DirEntry → List DirEntry

-- `PAGE_CACHE_SIZE`
abbrev pub page_size : ℕ
page_size = 4096

unfoldable pub gas_dir_pages : ℕ → ℕ
gas_dir_pages i_size = (i_size + page_size - 1) / page_size

unfoldable pub gas_last_byte : (i_size page_nr : ℕ) → ℕ
gas_last_byte i_size page_nr =
    if page_nr == i_size / page_size then i_size % page_size else page_size

-- `strncmp(a, b, n) == 0`
unfoldable pub same_prefix : ℕ → List ℕ → List ℕ → Bool
same_prefix zero a b = true
same_prefix (suc n) [] [] = true
same_prefix (suc n) [] (y ∷ b) = false
same_prefix (suc n) (x ∷ a) [] = false
same_prefix (suc n) (x ∷ a) (y ∷ b) = x == y && same_prefix n a b

-- `strncpy` of at most `n` bytes, closed by the zero that the module writes behind them
unfoldable pub copy_name : ℕ → List ℕ → List ℕ
copy_name zero name = []
copy_name (suc n) [] = []
copy_name (suc n) (c ∷ name) = c ∷ copy_name n name

-- A pointer to an entry: the page and the number of the entry in it
abbrev pub Slot : Type 0
Slot = ℕ × ℕ

-- The inner loop of `gas_find_entry` and of `gas_empty_dir`, over the entries from number `s` on: the
-- first that passes the test, up to the last byte of the page
unfoldable pub page_slot : (test : DirEntry → Bool) (last s : ℕ) → List DirEntry → Option ℕ
page_slot test last s [] = none
page_slot test last s (de ∷ rest) =
    let more = page_slot test last (s + 1) rest in
    if leb (s * dir_entry_size + dir_entry_size) last
    then (if test de then some s else more)
    else none

-- The outer loop, for `left` pages from page `n` on. A page that cannot be read is passed over.
unfoldable pub dir_slot : (test : DirEntry → Bool) → Dir → (left n : ℕ) → Option Slot
dir_slot test dir zero n = none
dir_slot test dir (suc left) n =
    let more = dir_slot test dir left (n + 1) in
    elim (dir.pages n) [
      | none ↦ more
      | some page ↦ elim (page_slot test (gas_last_byte dir.i_size n) 0 page) [
        | some s ↦ some (n, s)
        | none ↦ more
      ]
    ]

-- The two tests of `gas_find_entry`
unfoldable pub is_entry : List ℕ → DirEntry → Bool
is_entry name de = not (de.de_inode == 0) && same_prefix gas_max_name_len de.de_name name

unfoldable pub gas_find_entry : Dir → List ℕ → Option Slot
gas_find_entry dir name = dir_slot (is_entry name) dir (gas_dir_pages dir.i_size) 0

-- Byte `i` of `de_name`, 0 behind the end
abbrev pub name_byte : List ℕ → ℕ → ℕ
name_byte name i = Option.get_or (get_elem? name i) 0

-- The tests of `gas_empty_dir` that jump to `not_empty`
unfoldable pub not_dot : (i_ino : ℕ) → DirEntry → Bool
not_dot i_ino de =
    if de.de_inode == 0
    then false
    else if not (name_byte de.de_name 0 == b'.')
    then true
    else if name_byte de.de_name 1 == 0
    then not (de.de_inode == i_ino)
    else if not (name_byte de.de_name 1 == b'.')
    then true
    else not (name_byte de.de_name 2 == 0)

unfoldable pub gas_empty_dir : Dir → Bool
gas_empty_dir dir = elim (dir_slot (not_dot dir.i_ino) dir (gas_dir_pages dir.i_size) 0) [
  | none ↦ true
  | some _ ↦ false
]
