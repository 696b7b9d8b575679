-- ===== src/Kern/DirWrite.antt =====
-- kern/gas_dir.c: the operations that change a directory. The commit of a chunk may fail after the
-- page was changed; the change stays in the page.
pub mod AddLink
pub mod Lookup
pub mod Delete
pub mod Success
pub mod Empty
use gas_filesystem.Base.{
  ℕ, zero, suc, ◌+◌, ◌-◌, ◌*◌, ◌/◌, ◌%◌, Option, none, some, List, [], ◌∷◌, ◌==◌, ltb, leb, Bool,
  true, false, if◌then◌else◌, get_elem?, set, replicate,
}
use gas_filesystem.Kern.Types.{Errno, eexist, einval, enomem, dir_entry_size, gas_max_name_len}
use gas_filesystem.Kern.Dir.{
  Dir, DirEntry, Io, Slot, page_size, gas_dir_pages, gas_last_byte, same_prefix, copy_name,
}

-- Stores an entry through a pointer.
unfoldable pub store_entry : Dir → Slot → (DirEntry → DirEntry) → Dir
store_entry dir (n, s) change = record dir {
  pages = λ m.
      if m == n
      then elim (dir.pages n) [
        | none ↦ none
        | some page ↦ elim (get_elem? page s) [
          | none ↦ some page
          | some de ↦ some (set page s (change de))
        ]
      ]
      else dir.pages m;
}

-- The position of a slot in the file: `page_offset(page) + (char *)de - (char *)page_address(page)`
abbrev pub position : Slot → ℕ
position (n, s) = n * page_size + s * dir_entry_size

-- `gas_dir_commit_chunk`: the size grows to the end of the chunk.
unfoldable pub gas_dir_commit_chunk : Io → Dir → (pos len : ℕ) → Option Errno × Dir
gas_dir_commit_chunk io dir pos len = (
  io.write_page pos,
  if ltb dir.i_size (pos + len) then record dir { i_size = pos + len; dirty = true } else dir,
)

-- What the inner loop of `gas_add_link` ends with: an entry to fill, whether it stands at the end of
-- the directory, or an entry of the same name; `none` goes on to the next page.
pub data Room : Type 0 where
  at_end : ℕ → Room
  free : ℕ → Room
  exists : Room

unfoldable pub page_room : (name : List ℕ) (last s : ℕ) → List DirEntry → Option Room
page_room name last s [] = none
page_room name last s (de ∷ rest) =
    let more = page_room name last (s + 1) rest in
    if leb (s * dir_entry_size) (page_size - dir_entry_size)
    then (if s * dir_entry_size == last
        then some (at_end s)
        else if de.de_inode == 0
        then some (free s)
        else if same_prefix (gas_max_name_len - 1) de.de_name name
        then some exists
        else more)
    else none

-- The label `got_it`
unfoldable pub fill_entry : Io → Dir → Slot → List ℕ → ℕ → Option Errno × Dir
unfolding store_entry gas_dir_commit_chunk
fill_entry io dir slot name ino = elim (io.write_begin (position slot)) [
  | some e ↦ (some e, dir)
  | none ↦
      let filled =
        store_entry dir slot
          (λ _. record { de_name = copy_name (gas_max_name_len - 1) name; de_inode = ino }) in
      let (err, done) = gas_dir_commit_chunk io filled (position slot) dir_entry_size in
      (err, record done { i_mtime = io.now; i_ctime = io.now; dirty = true })
]

-- The outer loop of `gas_add_link`, for `left` pages from page `n` on. At the end of the directory the
-- entry is cleared first.
unfoldable pub add_link_loop : Io → Dir → List ℕ → ℕ → (left n : ℕ) → Option Errno × Dir
add_link_loop io dir name ino zero n = (some einval, dir)
add_link_loop io dir name ino (suc left) n =
    let more = add_link_loop io dir name ino left (n + 1) in
    elim (dir.pages n) [
      | none ↦ (some (io.page_error n), dir)
      | some page ↦ elim (page_room name (gas_last_byte dir.i_size n) 0 page) [
        | none ↦ more
        | some exists ↦ (some eexist, dir)
        | some (free s) ↦ fill_entry io dir (n, s) name ino
        | some (at_end s) ↦
            fill_entry io (store_entry dir (n, s) (λ de. record de { de_inode = 0 })) (n, s) name
              ino
      ]
    ]

unfoldable pub gas_add_link : Io → Dir → List ℕ → ℕ → Option Errno × Dir
gas_add_link io dir name ino = add_link_loop io dir name ino (gas_dir_pages dir.i_size + 1) 0

unfoldable pub gas_delete_entry : Io → Dir → Slot → Option Errno × Dir
gas_delete_entry io dir slot =
    let result : Option Errno × Dir = elim (io.write_begin (position slot)) [
      | some e ↦ (some e, dir)
      | none ↦
          gas_dir_commit_chunk io (store_entry dir slot (λ de. record de { de_inode = 0 }))
            (position slot) dir_entry_size
    ] in
    (result.0, record (result.1) { i_mtime = io.now; i_ctime = io.now; dirty = true })

-- `gas_set_link`, which does not use the inode that it is given
unfoldable pub gas_set_link : Io → Dir → Slot → ℕ → Dir
gas_set_link io dir slot ino =
    let done : Dir = elim (io.write_begin (position slot)) [
      | some e ↦ dir
      | none ↦ (gas_dir_commit_chunk io dir (position slot) dir_entry_size).1
    ] in
    record done { i_mtime = io.now; i_ctime = io.now; dirty = true }

-- What `gas_make_empty` puts into the first page: `.` and `..`, and zeros
unfoldable pub first_page : (ino parent : ℕ) → List DirEntry
first_page ino parent =
    record { de_name = b'.' ∷ []; de_inode = ino }
    ∷ record { de_name = b'.' ∷ b'.' ∷ []; de_inode = parent }
    ∷ replicate 13 (record { de_name = []; de_inode = 0 })

-- `grabbed` says that `grab_cache_page` found memory.
unfoldable pub gas_make_empty : Io → (grabbed : Bool) → Dir → (parent : ℕ) → Option Errno × Dir
gas_make_empty io grabbed dir parent =
    if grabbed
    then elim (io.write_begin 0) [
      | some e ↦ (some e, dir)
      | none ↦
          gas_dir_commit_chunk io
            (record dir {
              pages = λ n. if n == 0 then some (first_page dir.i_ino parent) else dir.pages n;
            })
            0 (2 * dir_entry_size)
    ]
    else (some enomem, dir)

-- `gas_dotdot` points to the second entry of the first page.
unfoldable pub gas_dotdot : Dir → Option Slot
gas_dotdot dir = elim (dir.pages 0) [ none ↦ none | some page ↦ some (0, 1) ]
