-- ===== src/Kern/DirWrite/Delete.antt =====
-- `gas_delete_entry` and `gas_set_link`: what they leave in the pages.
use mathlib.Core.Option
use mathlib.Core.Path.{subst}
use gas_filesystem.Base.{
  ℕ, ◌≡◌, refl, sym, ◌∙◌, inl, inr, true, false, ◌&&◌, ◌==◌, arith, Option, none, some, List, ap,
  Bool-cases, Option-cases,
}
use gas_filesystem.Kern.Types.{dir_entry_size}
use gas_filesystem.Kern.Dir.{Dir, DirEntry, Io, Slot, is_entry, gas_find_entry}
use gas_filesystem.Kern.Dir.Find.{entry_at, Found, at, nowhere, gas_find_entry-Found}
use gas_filesystem.Kern.DirWrite.{position, gas_delete_entry, gas_set_link}
use gas_filesystem.Kern.DirWrite.AddLink.{commit-entry_at, store-own, store-other}
use gas_filesystem.Kern.DirWrite.Lookup.{by_tests}

-- `gas_set_link`, whatever the writes return, leaves every entry of the directory as it was, also
-- the one that it is given an inode for.
pub gas_set_link_unchanged :
    (io : Io) (dir : Dir) (slot : Slot) (ino : ℕ) (other : Slot)
    → entry_at (gas_set_link io dir slot ino) other ≡ entry_at dir other
unfolding gas_set_link
gas_set_link_unchanged io dir slot ino other =
    elim (Option-cases (io.write_begin (position slot))) [
      | inr (e, fails) ↦ rw (fails, gas_set_link) refl
      | inl begun ↦
          rw (begun, gas_set_link) (commit-entry_at io dir (position slot) dir_entry_size other)
    ]

module _ (io : Io) (dir : Dir) (n s : ℕ) where
  abbrev deleted : Dir
  deleted = (gas_delete_entry io dir (n, s)).1

  delete-own :
      (de : DirEntry)
      → io.write_begin (position (n, s)) ≡ none
      → entry_at dir (n, s) ≡ some de
      → entry_at deleted (n, s) ≡ some (record de { de_inode = 0 })
  unfolding gas_delete_entry
  delete-own de begun is =
      rw (begun, gas_delete_entry)
        (commit-entry_at io _ _ dir_entry_size (n, s) ∙ store-own dir n s _ de is)

  delete-other :
      (m t : ℕ)
      → io.write_begin (position (n, s)) ≡ none
      → ((m == n) && (t == s)) ≡ false
      → entry_at deleted (m, t) ≡ entry_at dir (m, t)
  unfolding gas_delete_entry
  delete-other m t begun apart =
      rw (begun, gas_delete_entry)
        (commit-entry_at io _ _ dir_entry_size (m, t) ∙ store-other dir n s _ m t apart)

-- No entry outside the slot is in use under the name.
abbrev pub IsOnly : Dir → List ℕ → Slot → Type 0
IsOnly dir name (n, s) =
    (m t : ℕ) (de : DirEntry)
    → ((m == n) && (t == s)) ≡ false
    → entry_at dir (m, t) ≡ some de
    → is_entry name de ≡ false

-- Once `gas_delete_entry` could prepare the page of an entry that is the only one in use under a
-- name, `gas_find_entry` does not find the name, whether or not the page could be written out, and
-- the entries at other slots are as before.
pub gas_delete_entry-gas_find_entry :
    (io : Io) (dir : Dir) (name : List ℕ) (n s : ℕ) (de : DirEntry)
    → io.write_begin (position (n, s)) ≡ none
    → entry_at dir (n, s) ≡ some de
    → IsOnly dir name (n, s)
    → (gas_find_entry ((gas_delete_entry io dir (n, s)).1) name ≡ none)
      × ((m t : ℕ)
          → ((m == n) && (t == s)) ≡ false
          → entry_at ((gas_delete_entry io dir (n, s)).1) (m, t) ≡ entry_at dir (m, t))
unfolding is_entry
gas_delete_entry-gas_find_entry io dir name n s de begun is only = (
  by_walk _ (gas_find_entry-Found after name),
  λ m t apart. delete-other io dir n s m t begun apart,
)
  where
    unused : (de' : DirEntry) → de' ≡ record de { de_inode = 0 } → is_entry name de' ≡ true → ⊥
    unused de' e passes = absurd (ground (arith, ap (λ d. d.de_inode) e))

    after : Dir
    after = (gas_delete_entry io dir (n, s)).1

    by_walk : (o : Option Slot) → Found (is_entry name) after o → o ≡ none
    by_walk o (nowhere all) = refl
    by_walk o (at m t de' listed found passes) = elim (Bool-cases ((m == n) && (t == s))) [
      | inr apart ↦
          absurd (
            cc (only m t de' apart (sym (delete-other io dir n s m t begun apart) ∙ found), passes))
      | inl same ↦
          let own : entry_at after (m, t) ≡ some (record de { de_inode = 0 }) =
            subst (λ slot. entry_at after slot ≡ some (record de { de_inode = 0 }))
              (sym (by_tests m t n s same)) (delete-own io dir n s de begun is) in
          absurd (unused de' (ap (λ o. Option.get_or o de') (sym found ∙ own)) passes)
    ]
