-- ===== src/Payloads/Failures.antt =====
-- internal/inmems3/payload/loader.go: an import that fails midway
use rdma_demo.Base.{
  ◌≡◌, Bool, true, false, Option, none, some, List, [], ◌∷◌, ◌++◌, arith, if◌then◌else◌,
  Option-cases, inl, inr,
}
use rdma_demo.Base.Text.{Str, codes, is_empty, trim_space}
use rdma_demo.Payloads.Files.{GoError, err, wrap_error, Visit, DirEntry}
use rdma_demo.Payloads.Loader.{Store, AddFolderResult, load_bucket_objects, add_entry, add_entries}

abbrev pub names_bucket : DirEntry → Bool
names_bucket entry =
    if entry.is_dir then if is_empty (trim_space entry.name) then false else true else false

-- The error for an entry, if it is not an object that the store refuses: the context has ended, or the
-- directory cannot be read whole.
pub data Unreadable (quote : Str → Str) (context_error : Str → Option GoError)
    (walk : Str → List Visit) (entry : DirEntry) : GoError → Type 0 where
  ended :
      (e : GoError)
      → context_error entry.name ≡ some e
      → Unreadable quote context_error walk entry e
  unread :
      (e : GoError)
      → context_error entry.name ≡ none
      → names_bucket entry ≡ true
      → load_bucket_objects (walk entry.name) ≡ err e
      → Unreadable quote context_error walk entry
          (wrap_error (codes "load bucket " ++ quote (trim_space entry.name) ++ codes ": ") e)

module _ {S : Type 0} (api : Store S) (quote : Str → Str) (context_error : Str → Option GoError)
    (walk : Str → List Visit) where
  add_entry-Unreadable :
      (entry : DirEntry) (result : AddFolderResult) (s : S) {e : GoError}
      → Unreadable quote context_error walk entry e
      → add_entry api quote context_error walk entry result s ≡ (s, result, some e)
  unfolding add_entry
  add_entry-Unreadable entry result s (ended e h) = ground arith
  add_entry-Unreadable entry result s (unread e h d l) = ground arith

  -- An entry at which the context has ended, or whose directory cannot be read whole, ends the import
  -- with its error: the store and the result stay as the entries before it left them.
  pub add_entries-Unreadable :
      (before after : List DirEntry) (bad : DirEntry) (e : GoError) (result : AddFolderResult)
      (s : S)
      → (add_entries api quote context_error walk before result s).2 ≡ none
      → Unreadable quote context_error walk bad e
      → add_entries api quote context_error walk (before ++ bad ∷ after) result s ≡ (
        (add_entries api quote context_error walk before result s).0,
        (add_entries api quote context_error walk before result s).1,
        some e,
      )
  unfolding add_entries
  add_entries-Unreadable [] after bad e result s h u =
      ground (arith, add_entry-Unreadable bad result s u)
  add_entries-Unreadable (entry ∷ before) after bad e result s h u =
      let r = add_entry api quote context_error walk entry result s in
      elim (Option-cases r.2) [
        | inl n ↦ ground (arith, add_entries-Unreadable before after bad e r.1 r.0)
        | inr (x, n) ↦ absurd (ground arith)
      ]
