-- ===== src/Kern/Dir/Find.antt =====
-- kern/gas_dir.c: the walks of `gas_find_entry` and `gas_empty_dir`
use mathlib.Core.Path.{subst}
use gas_filesystem.Base.{
  ℕ, zero, suc, ◌+◌, ◌*◌, ◌≤◌, ◌<◌, ◌≡◌, refl, ◌∙◌, inl, inr, Bool, true, false, arith, Option,
  none, some, List, [], ◌∷◌, get_elem?, Bool-cases, Option-cases, leb, ap, leb→le, leb→lt, ltb,
  ltb→lt, ltb→le,
}
use gas_filesystem.Kern.Types.{dir_entry_size}
use gas_filesystem.Kern.Dir.{
  Dir, DirEntry, Slot, page_slot, dir_slot, gas_last_byte, gas_dir_pages, is_entry, gas_find_entry,
}

-- The entry at a slot
abbrev pub entry_at : Dir → Slot → Option DirEntry
entry_at dir (n, s) = elim (dir.pages n) [ none ↦ none | some page ↦ get_elem? page s ]

-- The slot lies below the size of the directory.
abbrev pub IsListed : ℕ → Slot → Type 0
IsListed i_size (n, s) =
    (n < gas_dir_pages i_size) × (s * dir_entry_size + dir_entry_size ≤ gas_last_byte i_size n)

-- What a walk over the directory returns: a listed entry that passes the test, or none does.
pub data Found (test : DirEntry → Bool) (dir : Dir) : Option Slot → Type 0 where
  at :
      (n s : ℕ) (de : DirEntry)
      → IsListed dir.i_size (n, s)
      → entry_at dir (n, s) ≡ some de
      → test de ≡ true
      → Found test dir (some (n, s))
  nowhere :
      ((n s : ℕ) (de : DirEntry)
        → IsListed dir.i_size (n, s)
        → entry_at dir (n, s) ≡ some de
        → test de ≡ false)
      → Found test dir none

-- The same for one page, from entry `s` on
data PageFound (test : DirEntry → Bool) (last s : ℕ) (page : List DirEntry)
    : Option ℕ → Type 0 where
  at :
      (k : ℕ) (de : DirEntry)
      → (s + k) * dir_entry_size + dir_entry_size ≤ last
      → get_elem? page k ≡ some de
      → test de ≡ true
      → PageFound test last s page (some (s + k))
  nowhere :
      ((k : ℕ) (de : DirEntry)
        → (s + k) * dir_entry_size + dir_entry_size ≤ last
        → get_elem? page k ≡ some de
        → test de ≡ false)
      → PageFound test last s page none

module _ (test : DirEntry → Bool) (last : ℕ) where
  PageFound-cons :
      (s : ℕ) (de : DirEntry) (rest : List DirEntry) (o : Option ℕ)
      → test de ≡ false
      → PageFound test last (s + 1) rest o
      → PageFound test last s (de ∷ rest) o
  PageFound-cons s de rest o fails (at k de' inside is passes) =
      let shift : s + suc k ≡ s + 1 + k = omega arith in
      subst (λ t. PageFound test last s (de ∷ rest) (some t)) shift
        (at (suc k) de' (omega arith) is passes)
  PageFound-cons s de rest o fails (nowhere all) = nowhere λ k de' inside is. go k de' inside is
    where
      go :
          (k : ℕ) (de' : DirEntry)
          → (s + k) * dir_entry_size + dir_entry_size ≤ last
          → get_elem? (de ∷ rest) k ≡ some de'
          → test de' ≡ false
      go zero de' inside is = ground arith
      go (suc k) de' inside is = all k de' (omega arith) is

  page_slot-PageFound :
      (s : ℕ) (page : List DirEntry) → PageFound test last s page (page_slot test last s page)
  unfolding page_slot
  page_slot-PageFound s [] = nowhere λ k de inside is. absurd (cc)
  page_slot-PageFound s (de ∷ rest) =
      elim (Bool-cases (leb (s * dir_entry_size + dir_entry_size) last)) [
        | inr beyond ↦
            rw beyond (nowhere λ k de' inside is. absurd (omega (arith, leb→lt _ _ beyond)))
        | inl inside ↦ rw inside (elim (Bool-cases (test de)) [
          | inl passes ↦ rw passes (
              let here : s + 0 ≡ s = omega arith in
              subst (λ t. PageFound test last s (de ∷ rest) (some t)) here
                (at 0 de (omega (arith, leb→le _ _ inside)) refl passes))
          | inr fails ↦
              rw fails (PageFound-cons s de rest _ fails (page_slot-PageFound (s + 1) rest))
        ])
      ]

module _ (test : DirEntry → Bool) (dir : Dir) where
  -- Nothing passes the test on the pages before `n`.
  abbrev NotBefore : ℕ → Type 0
  NotBefore n =
      (m s : ℕ) (de : DirEntry)
      → m < n
      → IsListed dir.i_size (m, s)
      → entry_at dir (m, s) ≡ some de
      → test de ≡ false

  dir_slot-Found :
      (left n : ℕ)
      → n + left ≡ gas_dir_pages dir.i_size
      → NotBefore n
      → Found test dir (dir_slot test dir left n)
  unfolding dir_slot
  dir_slot-Found zero n end before =
      nowhere λ m s de listed is. before m s de (omega arith) listed is
  dir_slot-Found (suc left) n end before =
      over_page (λ next. dir_slot-Found left (n + 1) (omega arith) next)
    where
      later :
          ((s : ℕ) (de : DirEntry)
            → IsListed dir.i_size (n, s)
            → entry_at dir (n, s) ≡ some de
            → test de ≡ false)
          → NotBefore (n + 1)
      later here m s de lt listed is = elim (Bool-cases (ltb m n)) [
        | inl old ↦ before m s de (ltb→lt _ _ old) listed is
        | inr new ↦
            let e : n ≡ m = omega (arith, ltb→le _ _ new) in
            subst
              (λ k. IsListed dir.i_size (k, s) → entry_at dir (k, s) ≡ some de → test de ≡ false) e
              (here s de) listed is
      ]

      over_page :
          (NotBefore (n + 1) → Found test dir (dir_slot test dir left (n + 1)))
          → Found test dir (dir_slot test dir (suc left) n)
      over_page more = elim (Option-cases (dir.pages n)) [
        | inl unread ↦
            rw (unread, dir_slot)
              (more (later λ s de listed is. absurd (cc (rw (unread, entry_at) at is))))
        | inr (page, read) ↦
            rw (read, dir_slot)
              (on_page page read (page_slot test (gas_last_byte dir.i_size n) 0 page)
                (page_slot-PageFound test (gas_last_byte dir.i_size n) 0 page))
      ]
        where
          on_page :
              (page : List DirEntry)
              → dir.pages n ≡ some page
              → (o : Option ℕ) → PageFound test (gas_last_byte dir.i_size n) 0 page o
              → Found test dir
                  (elim o [ some s ↦ some (n, s) | none ↦ dir_slot test dir left (n + 1) ])
          on_page page read o (at k de inside is passes) =
              at n (0 + k) de (omega arith, inside)
                (rw (read, entry_at) (ap (get_elem? page) (omega arith) ∙ is)) passes
          on_page page read o (nowhere all) = more (
              later
                λ s de listed is. all s de (omega (arith, listed.1)) (rw (read, entry_at) at is))

  pub walk-Found : Found test dir (dir_slot test dir (gas_dir_pages dir.i_size) 0)
  walk-Found =
      dir_slot-Found (gas_dir_pages dir.i_size) 0 (omega arith) (λ m s de lt. absurd (omega arith))

-- `gas_find_entry` as a walk
pub gas_find_entry-Found :
    (dir : Dir) (name : List ℕ) → Found (is_entry name) dir (gas_find_entry dir name)
unfolding gas_find_entry
gas_find_entry-Found dir name = walk-Found (is_entry name) dir
