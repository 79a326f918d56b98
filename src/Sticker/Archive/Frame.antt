-- ===== src/Sticker/Archive/Frame.antt =====
-- What FCompress leaves on the disk.
use x_sticker_bot.Base.{
  ◌≡◌, ◌≢◌, ◌⊎◌, Option, none, some, List, [], arith, Bytes, lookup, insert, lookup-insert,
  lookup-erase,
}
use x_sticker_bot.Base.FilePath.{AbsPath, path_eq, eq_path_iff}
use x_sticker_bot.Sticker.Archive.{Os, CompressError, Disk, write_members, finish, f_compress}

module _ (os : Os) where
  finish-frame :
      (d : Disk os) (f p : AbsPath) (r : Option CompressError × List (Bytes × os.Blob))
      → p ≢ f
      → lookup p (finish os d f r).1 ≡ lookup p d
  unfolding finish
  finish-frame d f p (some e, done) ne = ground (arith, eq_path_iff f p, lookup-erase f p d)
  finish-frame d f p (none, done) ne =
      ground (arith, eq_path_iff f p, lookup-erase f p d, lookup-insert f p (os.zip_blob done) d)

  -- FCompress changes no file but the archive itself, whether it succeeds or fails.
  pub f_compress_frame :
      (d : Disk os) (f : AbsPath) (flist : List AbsPath) (p : AbsPath)
      → p ≢ f
      → lookup p (f_compress os d f flist).1 ≡ lookup p d
  unfolding f_compress
  f_compress_frame d f flist p ne =
      let created = insert f os.empty_blob d in
      ground (
        arith,
        eq_path_iff f p,
        finish-frame created f p (write_members os created flist []) ne,
        lookup-insert f p os.empty_blob d,
      )

  finish-error :
      (d : Disk os) (f : AbsPath) (r : Option CompressError × List (Bytes × os.Blob))
      (e : CompressError)
      → (finish os d f r).0 ≡ some e
      → lookup f (finish os d f r).1 ≡ none
  unfolding finish
  finish-error d f (some e', done) e h = ground (arith, eq_path_iff f f, lookup-erase f f d)
  finish-error d f (none, done) e h = ground (arith, eq_path_iff f f, lookup-erase f f d)

  -- After an error no archive is left behind: either nothing on the disk has changed, or the
  -- archive is not there.
  pub f_compress_error :
      (d : Disk os) (f : AbsPath) (flist : List AbsPath) (e : CompressError)
      → (f_compress os d f flist).0 ≡ some e
      → ((f_compress os d f flist).1 ≡ d) ⊎ (lookup f (f_compress os d f flist).1 ≡ none)
  unfolding f_compress
  f_compress_error d f flist e h =
      let created = insert f os.empty_blob d in
      ground (arith, finish-error created f (write_members os created flist []) e)
