-- ===== src/Kern/DirWrite/Success.antt =====
-- kern/gas_dir.c: the conditions under which `gas_add_link` succeeds
use gas_filesystem.Base.{
  ℕ, zero, suc, ◌+◌, ◌-◌, ◌*◌, ◌≤◌, ◌<◌, ◌≡◌, refl, sym, ◌∙◌, ◌≢◌, inl, inr, true, ◌==◌, arith,
  Option, none, some, List, [], ◌∷◌, get_elem?, Bool-cases, Option-cases, ap, le→leb, ==→eq,
}
use gas_filesystem.Kern.Types.{Errno, eexist, dir_entry_size, gas_max_name_len}
use gas_filesystem.Kern.Dir.{
  Dir, DirEntry, Io, Slot, page_size, gas_dir_pages, gas_last_byte, same_prefix,
}
use gas_filesystem.Kern.Dir.Find.{entry_at}
use gas_filesystem.Kern.DirWrite.{
  store_entry, position, gas_dir_commit_chunk, Room, at_end, free, exists, page_room, fill_entry,
  add_link_loop, gas_add_link,
}

-- No write fails.
pub record Writes (io : Io) : Type 0 where
  pub begins : (pos : ℕ) → io.write_begin pos ≡ none
  pub commits : (pos : ℕ) → io.write_page pos ≡ none

fill_entry_succeeds :
    (io : Io) (dir : Dir) (slot : Slot) (name : List ℕ) (ino : ℕ)
    → Writes io
    → (dir' : Dir) × (fill_entry io dir slot name ino ≡ (none, dir'))
unfolding fill_entry gas_dir_commit_chunk
fill_entry_succeeds io dir slot name ino works =
    rw (works.begins (position slot), works.commits (position slot), fill_entry) (_, refl)

-- No entry in use has a name that `gas_add_link` takes for the name.
abbrev pub NoClash : Dir → List ℕ → Type 0
NoClash dir name =
    (slot : Slot) (de : DirEntry)
    → entry_at dir slot ≡ some de
    → same_prefix (gas_max_name_len - 1) de.de_name name ≡ true
    → de.de_inode ≡ 0

module _ (name : List ℕ) (last : ℕ) where
  page_room_no_clash :
      (s : ℕ) (page : List DirEntry)
      → ((k : ℕ) (de : DirEntry)
          → get_elem? page k ≡ some de
          → same_prefix (gas_max_name_len - 1) de.de_name name ≡ true
          → de.de_inode ≡ 0)
      → page_room name last s page ≢ some exists
  unfolding page_room
  page_room_no_clash s [] clear e = absurd (cc)
  page_room_no_clash s (de ∷ rest) clear e =
      page_room_no_clash (s + 1) rest (λ k. clear (suc k)) (ground (arith, clear 0 de refl))

  page_room_free :
      (s : ℕ) (page : List DirEntry) (k : ℕ) (de : DirEntry)
      → get_elem? page k ≡ some de
      → de.de_inode ≡ 0
      → (s + k) * dir_entry_size + dir_entry_size ≤ page_size
      → page_room name last s page ≢ none
  unfolding page_room
  page_room_free s [] k de is unused inside e = absurd (cc)
  page_room_free s (de' ∷ rest) zero de is unused inside e =
      ground (arith, le→leb (s * dir_entry_size) (page_size - dir_entry_size) (omega arith), is)
  page_room_free s (de' ∷ rest) (suc k) de is unused inside e =
      page_room_free (s + 1) rest k de is unused (omega arith) (ground arith)

module _ (io : Io) (dir : Dir) (name : List ℕ) (ino : ℕ) (works : Writes io)
    (clear : NoClash dir name) where
  -- A result without an error
  abbrev Succeeds : Option Errno × Dir → Type 0
  Succeeds r = (dir' : Dir) × (r ≡ (none, dir'))

  add_link_loop-Succeeds :
      (left n m s : ℕ) (de : DirEntry)
      → n ≤ m
      → m < n + left
      → ((k : ℕ) → k ≤ m → dir.pages k ≢ none)
      → entry_at dir (m, s) ≡ some de
      → de.de_inode ≡ 0
      → s * dir_entry_size + dir_entry_size ≤ page_size
      → Succeeds (add_link_loop io dir name ino left n)
  unfolding add_link_loop
  add_link_loop-Succeeds zero n m s de le lt readable is unused inside = absurd (omega arith)
  add_link_loop-Succeeds (suc left) n m s de le lt readable is unused inside = over_page (λ before.
      add_link_loop-Succeeds left (n + 1) m s de before (omega arith) readable is unused inside)
    where
      next : Option Errno × Dir
      next = add_link_loop io dir name ino left (n + 1)

      room : List DirEntry → Option Room
      room page = page_room name (gas_last_byte dir.i_size n) 0 page

      no_clash : (page : List DirEntry) → dir.pages n ≡ some page → room page ≢ some exists
      no_clash page read =
          page_room_no_clash name (gas_last_byte dir.i_size n) 0 page
            (λ k de' at. clear (n, k) de' (rw (read, entry_at) at))

      goes_on : (page : List DirEntry) → dir.pages n ≡ some page → room page ≡ none → n + 1 ≤ m
      goes_on page read e = elim (Bool-cases (n == m)) [
        | inl same ↦
            let here : get_elem? page s ≡ some de =
              rw (ap dir.pages (sym (==→eq n m same)) ∙ read, entry_at) at is in
            absurd (
              page_room_free name (gas_last_byte dir.i_size n) 0 page s de here unused (omega arith)
                e)
        | inr apart ↦ ground arith
      ]

      on_page :
          (more : n + 1 ≤ m → Succeeds next) (page : List DirEntry) (read : dir.pages n ≡ some page)
          (o : Option Room)
          → room page ≡ o
          → Succeeds (elim o [
            | none ↦ next
            | some exists ↦ (some eexist, dir)
            | some (free s) ↦ fill_entry io dir (n, s) name ino
            | some (at_end s) ↦
                fill_entry io
                  (store_entry dir (n, s) (λ de. record de { de_inode = 0 }))
                  (n, s)
                  name
                  ino
          ])
      on_page more page read none e = more (goes_on page read e)
      on_page more page read (some exists) e = absurd (no_clash page read e)
      on_page more page read (some (free s)) e = fill_entry_succeeds io dir (n, s) name ino works
      on_page more page read (some (at_end s)) e = fill_entry_succeeds io _ (n, s) name ino works

      over_page :
          (n + 1 ≤ m → Succeeds next) → Succeeds (add_link_loop io dir name ino (suc left) n)
      over_page more = elim (Option-cases (dir.pages n)) [
        | inl unread ↦ absurd (readable n le unread)
        | inr (page, read) ↦ rw (read, add_link_loop) (on_page more page read (room page) refl)
      ]

-- `gas_add_link` succeeds if no write fails, no entry in use agrees with the new name in the first
-- 255 bytes, and some page, up to the one after the last, has an unused entry that lies in the page,
-- and it and the pages before it can be read.
pub gas_add_link_succeeds :
    (io : Io) (dir : Dir) (name : List ℕ) (ino m s : ℕ) (de : DirEntry)
    → Writes io
    → NoClash dir name
    → m ≤ gas_dir_pages dir.i_size
    → ((k : ℕ) → k ≤ m → dir.pages k ≢ none)
    → entry_at dir (m, s) ≡ some de
    → de.de_inode ≡ 0
    → s * dir_entry_size + dir_entry_size ≤ page_size
    → (dir' : Dir) × (gas_add_link io dir name ino ≡ (none, dir'))
unfolding gas_add_link
gas_add_link_succeeds io dir name ino m s de works clear le readable is unused inside =
    add_link_loop-Succeeds io dir name ino works clear _ 0 m s de (omega arith) (omega arith)
      readable is unused inside
