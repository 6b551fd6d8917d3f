-- ===== src/Config/Atomic.antt =====
-- What a save of src/persist.rs does to the disk, whatever fails on the way.
use wintermute_brain.Prelude.Paths.{
  PathBuf, path_eq, path_eq_refl, parent, display, with_suffix-other,
}
use wintermute_brain.Prelude.{
  ℕ, false, ◌≡◌, refl, ◌⊎◌, inl, inr, List, [], ◌∷◌, ◌++◌, Option, none, some, Text, codes, take,
  All, Result, ok, err, Result-cases, Option-cases,
}
use wintermute_brain.Config.{Float64, BrainError, missing, invalid_config, Config, validate}
use wintermute_brain.Config.Files.{
  Disk, Calls, Saved, Toml, tmp_path_for, put, renamed, then_disk, attempt, while_writing,
  write_and_rename, save_to_file,
}

-- The disk at the end.
unfoldable pub after : Disk → List Disk → Disk
after d [] = d
after d (e ∷ ds) = after e ds

-- The file has what it had or the whole text, and no other file but the temporary one has changed.
pub record Keeps (path : PathBuf) (d : Disk) (text : Text) (e : Disk) : Type 0 where
  pub old_or_new : (e path ≡ d path) ⊎ (e path ≡ some text)
  pub others :
      (q : PathBuf) → path_eq path q ≡ false → path_eq (tmp_path_for path) q ≡ false → e q ≡ d q

-- At the end a save that failed has left the file, and one that succeeded has replaced it.
abbrev pub Ends : PathBuf → Disk → Text → Result BrainError (Unit {0}) → Disk → Type 0
Ends path d text (ok done) e = e path ≡ some text
Ends path d text (err failure) e = e path ≡ d path

-- A save of a text over the disk `d`, from where the disk is `now`.
abbrev AtomicFrom : PathBuf → Disk → Text → Disk → Saved → Type 0
AtomicFrom path d text now (r, ds) = All (Keeps path d text) ds × Ends path d text r (after now ds)

abbrev pub Atomic : PathBuf → Disk → Text → Saved → Type 0
Atomic path d text saved = AtomicFrom path d text d saved

tmp-other : (path : PathBuf) → path_eq (tmp_path_for path) path ≡ false
unfolding tmp_path_for
tmp-other path = with_suffix-other 46 (codes "tmp") path

tmp-Keeps :
    (path : PathBuf) (d : Disk) (text : Text) (contents : Option Text)
    → Keeps path d text (put (tmp_path_for path) contents d)
tmp-Keeps path d text contents = record {
  old_or_new = inl (rw (tmp-other path) refl);
  others = λ q here there. rw there refl;
}

renamed-Keeps :
    (path : PathBuf) (d : Disk) (text : Text)
    → Keeps path d text (renamed (tmp_path_for path) path (put (tmp_path_for path) (some text) d))
renamed-Keeps path d text = record {
  old_or_new = inr (rw (path_eq_refl path) (rw (path_eq_refl (tmp_path_for path)) refl));
  others = λ q here there. rw here (rw there refl);
}

module _ (path : PathBuf) (d : Disk) (text : Text) where
  abbrev tmp : PathBuf
  tmp = tmp_path_for path

  then-Atomic :
      (now e : Disk) (next : Saved)
      → Keeps path d text e
      → AtomicFrom path d text e next
      → AtomicFrom path d text now (then_disk e next)
  unfolding after
  then-Atomic now e (r, ds) keeps (all, ends) = ((keeps, all), ends)

  attempt-Atomic :
      (now : Disk) (failure : Option Text) (p : PathBuf) (next : Saved)
      → now path ≡ d path
      → AtomicFrom path d text now next
      → AtomicFrom path d text now (attempt failure p next)
  unfolding after
  attempt-Atomic now none p next same a = a
  attempt-Atomic now (some source) p next same a = (_, same)

  put-same : (contents : Option Text) → put tmp contents d path ≡ d path
  put-same contents = rw (tmp-other path) refl

  while-Atomic :
      (ns : List ℕ) (now : Disk) (next : Saved)
      → now path ≡ d path
      → ((e : Disk) → e path ≡ d path → AtomicFrom path d text e next)
      → AtomicFrom path d text now (while_writing ns tmp text d next)
  unfolding while_writing
  while-Atomic [] now next same rest = rest now same
  while-Atomic (n ∷ ns) now next same rest =
      let e = put tmp (some (take n text)) d in
      then-Atomic now e _ (tmp-Keeps path d text (some (take n text)))
        (while-Atomic ns e next (put-same (some (take n text))) rest)

  write_and_rename-Atomic :
      (calls : Calls) → Atomic path d text (write_and_rename calls path text d)
  unfolding write_and_rename after
  write_and_rename-Atomic calls =
      let full = put tmp (some text) d in
      attempt-Atomic d calls.create tmp _ refl (
        then-Atomic d (put tmp (some []) d) _ (tmp-Keeps path d text (some [])) (
          while-Atomic calls.written (put tmp (some []) d) _ (put-same (some [])) (λ e same.
            attempt-Atomic e calls.write_all tmp _ same (
              then-Atomic e full _ (tmp-Keeps path d text (some text)) (
                attempt-Atomic full calls.sync_all tmp _ (put-same (some text)) (
                  attempt-Atomic full calls.rename path _ (put-same (some text)) (
                    then-Atomic full (renamed tmp path full) (ok tt, []) (renamed-Keeps path d text)
                      (_, rw (path_eq_refl path) (rw (path_eq_refl tmp) refl)))))))))

-- Whatever fails while a configuration is saved: either the save ends with an error before it has touched
-- the disk; or the configuration is valid and has a text, and after each change of the disk the file has
-- what it had or that whole text, and no file but it and the temporary one has changed. At the end the file
-- has what it had when the save failed, and the text when it succeeded.
pub save_to_file-Atomic :
    (f : Float64) (toml : Toml (Config f)) (calls : Calls) (path : PathBuf) (d : Disk)
    (c : Config f)
    → ((e : BrainError) × (save_to_file f toml calls path d c ≡ (err e, [])))
      ⊎ (text : Text) × (validate f c ≡ ok tt)
        × (toml.to_string_pretty c ≡ ok text)
        × Atomic path d text (save_to_file f toml calls path d c)
unfolding save_to_file
save_to_file-Atomic f toml calls path d c = elim (Result-cases (validate f c)) [
  | inr (e, invalid) ↦ inl (e, rw invalid refl)
  | inl (done, valid) ↦ elim (Result-cases (toml.to_string_pretty c)) [
    | inr (e, unprinted) ↦ inl (invalid_config path e, rw valid (rw unprinted refl))
    | inl (text, printed) ↦ elim (Option-cases (parent path)) [
      | inl orphan ↦ inl (
        missing (codes "config path " ++ display path ++ codes " has no parent dir"),
        rw valid (rw printed (rw orphan refl)),
      )
      | inr (p, has_parent) ↦ inr (
        text,
        valid,
        printed,
        rw valid (
            rw printed (
              rw has_parent (
                attempt-Atomic path d text d _ p _ refl
                  (write_and_rename-Atomic path d text calls)))),
      )
    ]
  ]
]
