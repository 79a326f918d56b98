-- ===== src/Sticker/Archive.antt =====
-- FCompress of internal/sticker/util.go. The operating system and the encoding of ZIP files are
-- the record `Os`; the disk is a dictionary of the files' contents.
pub mod Frame
pub mod Contents
use x_sticker_bot.Base.{
  ℕ, ◌≡◌, Bool, true, false, ◌||◌, Option, none, some, List, [], ◌∷◌, ◌++◌, if◌then◌else◌, Bytes,
  eq_bytes, lookup, insert, erase,
}
use x_sticker_bot.Base.FilePath.{AbsPath, base, path_eq}

-- What the program does not implement: contents of files, and which calls fail.
pub record Os : Type 1 where
  pub Blob : Type 0
  pub blob_size : Blob → ℕ
  -- a new file, and a finished archive with these members
  pub empty_blob : Blob
  pub zip_blob : List (Bytes × Blob) → Blob
  pub stat_fails : AbsPath → Bool
  pub create_fails : AbsPath → Bool
  pub open_fails : AbsPath → Bool
  -- `writer.Create` or `io.Copy` fails for this input
  pub write_fails : AbsPath → Bool
  pub input_close_fails : AbsPath → Bool
  -- `writer.Close` and `output.Close` of this archive
  pub finalize_fails : AbsPath → Bool
  pub close_fails : AbsPath → Bool

pub data CompressError : Type 0 where
  duplicate_name : Bytes → CompressError
  create_error : CompressError
  open_error write_error input_close_error : AbsPath → CompressError
  finalize_error close_error : CompressError

abbrev pub member_of : Bytes → List Bytes → Bool
member_of n [] = false
member_of n (m ∷ ms) = eq_bytes m n || member_of n ms

-- The first loop: the base names seen so far are the keys of `names`.
unfoldable pub duplicate : List AbsPath → List Bytes → Option Bytes
duplicate [] names = none
duplicate (file ∷ files) names =
    let rest = duplicate files (base file ∷ names) in
    if member_of (base file) names then some (base file) else rest

module _ (os : Os) where
  abbrev pub Disk : Type 0
  Disk = List (AbsPath × os.Blob)

  -- os.Open and reading of an input.
  pub read_input : Disk → AbsPath → Option os.Blob
  read_input d file = if os.open_fails file then none else lookup file d

  -- The second loop; the members written so far are `done`.
  pub write_members :
      Disk → List AbsPath → List (Bytes × os.Blob) → Option CompressError × List (Bytes × os.Blob)
  write_members d [] done = (none, done)
  write_members d (file ∷ files) done = elim (read_input d file) [
    | none ↦ (some (open_error file), done)
    | some blob ↦
        let rest = write_members d files (done ++ (base file, blob) ∷ []) in
        if os.write_fails file
        then (some (write_error file), done)
        else if os.input_close_fails file
        then (some (input_close_error file), done ++ (base file, blob) ∷ [])
        else rest
  ]

  -- The deferred calls: `writer.Close`, `output.Close`, and `os.Remove` after any error.
  pub finish :
      Disk → AbsPath → Option CompressError × List (Bytes × os.Blob) → Option CompressError × Disk
  finish d f (some e, done) = (some e, erase f d)
  finish d f (none, done) =
      if os.finalize_fails f
      then (some finalize_error, erase f d)
      else if os.close_fails f
      then (some close_error, erase f d)
      else (none, insert f (os.zip_blob done) d)

  unfoldable pub f_compress : Disk → AbsPath → List AbsPath → Option CompressError × Disk
  f_compress d f flist = elim (duplicate flist []) [
    | some name ↦ (some (duplicate_name name), d)
    | none ↦
        if os.create_fails f
        then (some create_error, d)
        else (let created = insert f os.empty_blob d in
            finish created f (write_members created flist []))
  ]
