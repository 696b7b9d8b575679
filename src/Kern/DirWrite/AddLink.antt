-- ===== src/Kern/DirWrite/AddLink.antt =====
-- `gas_add_link` of kern/gas_dir.c: where the new entry goes
use mathlib.Core.Path.{subst}
use gas_filesystem.Base.{
  ℕ, zero, suc, ◌+◌, ◌-◌, ◌*◌, ◌≤◌, ◌≡◌, refl, ◌∙◌, ◌≢◌, inl, inr, false, ◌&&◌, ◌==◌, arith, Option,
  none, some, List, [], ◌∷◌, get_elem?, Bool-cases, Option-cases, leb, ap, leb→le, ltb→lt, ltb→le,
  ==→eq, get_elem?-set_self, get_elem?-set_ne, lt_of_get_elem?,
}
use gas_filesystem.Kern.Types.{Errno, eexist, dir_entry_size, gas_max_name_len}
use gas_filesystem.Kern.Dir.{
  Dir, DirEntry, Io, Slot, page_size, gas_last_byte, same_prefix, copy_name,
}
use gas_filesystem.Kern.Dir.Find.{entry_at}
use gas_filesystem.Kern.DirWrite.{
  store_entry, position, gas_dir_commit_chunk, Room, at_end, free, exists, page_room, fill_entry,
  add_link_loop,
}

abbrev pub new_entry : List ℕ → ℕ → DirEntry
new_entry name ino = record { de_name = copy_name (gas_max_name_len - 1) name; de_inode = ino }

module _ (dir : Dir) (n s : ℕ) (change : DirEntry → DirEntry) where
  pub store-own :
      (de : DirEntry)
      → entry_at dir (n, s) ≡ some de
      → entry_at (store_entry dir (n, s) change) (n, s) ≡ some (change de)
  unfolding store_entry
  store-own de is = elim (Option-cases (dir.pages n)) [
    | inl unread ↦ absurd (cc (rw (unread, entry_at) at is))
    | inr (page, read) ↦
        let here : get_elem? page s ≡ some de = rw (read, entry_at) at is in
        ground
          (arith, read, here, get_elem?-set_self page s (change de) (lt_of_get_elem? page s here))
  ]

  pub store-other :
      (m t : ℕ)
      → ((m == n) && (t == s)) ≡ false
      → entry_at (store_entry dir (n, s) change) (m, t) ≡ entry_at dir (m, t)
  unfolding store_entry
  store-other m t apart = elim (Bool-cases (m == n)) [
    | inr page_apart ↦ ground arith
    | inl same ↦ same_page (==→eq m n same) (ground arith)
  ]
    where
      same_page :
          m ≡ n → s ≢ t → entry_at (store_entry dir (n, s) change) (m, t) ≡ entry_at dir (m, t)
      same_page e ne = elim (Option-cases (dir.pages n)) [
        | inl unread ↦ ground (arith, unread, e, ap dir.pages e)
        | inr (page, read) ↦ elim (Option-cases (get_elem? page s)) [
          | inl missing ↦ ground (arith, read, missing, ap dir.pages e)
          | inr (de, is) ↦
              ground (arith, read, is, ap dir.pages e, get_elem?-set_ne page s t (change de) ne)
        ]
      ]

-- `dir'` is `dir` with the new entry in a slot, which lies below the size now; everything else is as
-- before.
pub record Added (dir : Dir) (n s : ℕ) (name : List ℕ) (ino : ℕ) (dir' : Dir) : Type 0 where
  pub same_ino : dir'.i_ino ≡ dir.i_ino
  pub entry : entry_at dir' (n, s) ≡ some (new_entry name ino)
  pub others :
      (m t : ℕ) → ((m == n) && (t == s)) ≡ false → entry_at dir' (m, t) ≡ entry_at dir (m, t)
  pub fits : s * dir_entry_size + dir_entry_size ≤ page_size
  pub grown : dir.i_size ≤ dir'.i_size
  pub covered : n * page_size + s * dir_entry_size + dir_entry_size ≤ dir'.i_size

module _ (io : Io) (dir : Dir) (pos len : ℕ) where
  abbrev committed : Dir
  committed = (gas_dir_commit_chunk io dir pos len).1

  pub commit-entry_at : (slot : Slot) → entry_at committed slot ≡ entry_at dir slot
  unfolding gas_dir_commit_chunk
  commit-entry_at (n, s) = ground arith

  pub commit-i_ino : committed.i_ino ≡ dir.i_ino
  unfolding gas_dir_commit_chunk
  commit-i_ino = ground arith

  pub commit-grown : dir.i_size ≤ committed.i_size
  unfolding gas_dir_commit_chunk
  commit-grown = ground (arith, ltb→lt dir.i_size (pos + len))

  pub commit-covered : pos + len ≤ committed.i_size
  unfolding gas_dir_commit_chunk
  commit-covered = ground (arith, ltb→le dir.i_size (pos + len))

pub store-i_size :
    (dir : Dir) (slot : Slot) (change : DirEntry → DirEntry)
    → ((store_entry dir slot change).i_size ≡ dir.i_size)
      × ((store_entry dir slot change).i_ino ≡ dir.i_ino)
unfolding store_entry
store-i_size dir (n, s) change = (refl, refl)

module _ (io : Io) (dir : Dir) (n s : ℕ) (name : List ℕ) (ino : ℕ) (de : DirEntry) where
  abbrev filled : Dir
  filled = store_entry dir (n, s) (λ _. new_entry name ino)

  abbrev pos : ℕ
  pos = position (n, s)

  fill_entry-Added :
      (dir' : Dir)
      → entry_at dir (n, s) ≡ some de
      → s * dir_entry_size + dir_entry_size ≤ page_size
      → fill_entry io dir (n, s) name ino ≡ (none, dir')
      → Added dir n s name ino dir'
  unfolding fill_entry
  fill_entry-Added dir' is fits e = elim (Option-cases (io.write_begin (position (n, s)))) [
    | inr (err, fails) ↦ absurd (cc (ap (λ r. r.0) (rw (fails, fill_entry) at e)))
    | inl begun ↦
        subst (Added dir n s name ino) (ap (λ r. r.1) (rw (begun, fill_entry) at e)) record {
          same_ino =
              commit-i_ino io filled pos dir_entry_size
              ∙ (store-i_size dir (n, s) (λ _. new_entry name ino)).1;
          entry = commit-entry_at io filled pos dir_entry_size (n, s) ∙ store-own dir n s _ de is;
          others = λ m t apart.
              commit-entry_at io filled pos dir_entry_size (m, t) ∙ store-other dir n s _ m t apart;
          fits = fits;
          grown = omega (
            arith,
            commit-grown io filled pos dir_entry_size,
            (store-i_size dir (n, s) (λ _. new_entry name ino)).0,
          );
          covered = omega (arith, commit-covered io filled pos dir_entry_size);
        }
  ]

-- An entry of the page from entry `s` on, inside the page
abbrev EntryOf : (s : ℕ) → List DirEntry → ℕ → Type 0
EntryOf s page t =
    (k : ℕ) × (de : DirEntry) × (s + k ≡ t)
    × (get_elem? page k ≡ some de)
    × (t * dir_entry_size + dir_entry_size ≤ page_size)

-- The room that is found is an entry of the page.
data Placed (s : ℕ) (page : List DirEntry) : Option Room → Type 0 where
  end : (t : ℕ) → EntryOf s page t → Placed s page (some (at_end t))
  hole : (t : ℕ) → EntryOf s page t → Placed s page (some (free t))
  taken : Placed s page (some exists)
  nothing : Placed s page none

EntryOf-cons :
    (s : ℕ) (de : DirEntry) (rest : List DirEntry) (t : ℕ)
    → EntryOf (s + 1) rest t
    → EntryOf s (de ∷ rest) t
EntryOf-cons s de rest t (k, de', shift, is, inside) = (suc k, de', omega arith, is, inside)

Placed-cons :
    (s : ℕ) (de : DirEntry) (rest : List DirEntry) (o : Option Room)
    → Placed (s + 1) rest o
    → Placed s (de ∷ rest) o
Placed-cons s de rest o (end t is) = end t (EntryOf-cons s de rest t is)
Placed-cons s de rest o (hole t is) = hole t (EntryOf-cons s de rest t is)
Placed-cons s de rest o taken = taken
Placed-cons s de rest o nothing = nothing

page_room-Placed :
    (name : List ℕ) (last s : ℕ) (page : List DirEntry) → Placed s page (page_room name last s page)
unfolding page_room
page_room-Placed name last s [] = nothing
page_room-Placed name last s (de ∷ rest) =
    elim (Bool-cases (leb (s * dir_entry_size) (page_size - dir_entry_size))) [
      | inr beyond ↦ rw beyond nothing
      | inl inside ↦
          let here : EntryOf s (de ∷ rest) s =
            (0, de, omega arith, refl, omega (arith, leb→le _ _ inside)) in
          rw inside (elim (Bool-cases (s * dir_entry_size == last)) [
            | inl e ↦ rw e (end s here)
            | inr e ↦ rw e (elim (Bool-cases (de.de_inode == 0)) [
              | inl unused ↦ rw unused (hole s here)
              | inr used ↦
                  rw used (elim (Bool-cases (same_prefix (gas_max_name_len - 1) de.de_name name)) [
                    | inl same ↦ rw same taken
                    | inr other ↦
                        rw other (Placed-cons s de rest _ (page_room-Placed name last (s + 1) rest))
                  ])
            ])
          ])
    ]

-- The new entry is in some slot.
abbrev pub AddedSome : Dir → List ℕ → ℕ → Dir → Type 0
AddedSome dir name ino dir' = (n s : ℕ) × Added dir n s name ino dir'

Added-cleared :
    (dir : Dir) (n s : ℕ) (name : List ℕ) (ino : ℕ) (change : DirEntry → DirEntry) (dir' : Dir)
    → Added (store_entry dir (n, s) change) n s name ino dir'
    → Added dir n s name ino dir'
Added-cleared dir n s name ino change dir' a = record {
  same_ino = a.same_ino ∙ (store-i_size dir (n, s) change).1;
  entry = a.entry;
  others = λ m t apart. a.others m t apart ∙ store-other dir n s change m t apart;
  fits = a.fits;
  grown = omega (arith, a.grown, (store-i_size dir (n, s) change).0);
  covered = a.covered;
}

module _ (io : Io) (dir : Dir) (name : List ℕ) (ino : ℕ) where
  pub add_link_loop-Added :
      (left n : ℕ) (dir' : Dir)
      → add_link_loop io dir name ino left n ≡ (none, dir')
      → AddedSome dir name ino dir'
  unfolding add_link_loop
  add_link_loop-Added zero n dir' e = absurd (cc (ap (λ r. r.0) e))
  add_link_loop-Added (suc left) n dir' e = elim (Option-cases (dir.pages n)) [
    | inl unread ↦ absurd (cc (ap (λ r. r.0) (rw (unread, add_link_loop) at e)))
    | inr (page, read) ↦
        on_page (add_link_loop-Added left (n + 1) dir') page read _
          (page_room-Placed name (gas_last_byte dir.i_size n) 0 page)
          (rw (read, add_link_loop) at e)
  ]
    where
      next : Option Errno × Dir
      next = add_link_loop io dir name ino left (n + 1)

      cleared : ℕ → Dir
      cleared s = store_entry dir (n, s) (λ de. record de { de_inode = 0 })

      on_page :
          (next ≡ (none, dir') → AddedSome dir name ino dir')
          → (page : List DirEntry) → dir.pages n ≡ some page
          → (o : Option Room) → Placed 0 page o
          → (elim o [
            | none ↦ next
            | some exists ↦ (some eexist, dir)
            | some (free s) ↦ fill_entry io dir (n, s) name ino
            | some (at_end s) ↦ fill_entry io (cleared s) (n, s) name ino
          ])
            ≡ (none, dir')
          → AddedSome dir name ino dir'
      on_page more page read o (end t (k, de, shift, is, inside)) r =
          let here : entry_at dir (n, t) ≡ some de =
            rw (read, entry_at) (ap (get_elem? page) (omega arith) ∙ is) in
          (
            n,
            t,
            Added-cleared dir n t name ino _ dir' (
                fill_entry-Added io (cleared t) n t name ino _ dir' (store-own dir n t _ de here)
                  inside r),
          )
      on_page more page read o (hole t (k, de, shift, is, inside)) r =
          let here : entry_at dir (n, t) ≡ some de =
            rw (read, entry_at) (ap (get_elem? page) (omega arith) ∙ is) in
          (n, t, fill_entry-Added io dir n t name ino de dir' here inside r)
      on_page more page read o taken r = absurd (cc (ap (λ r. r.0) r))
      on_page more page read o nothing r = more r
