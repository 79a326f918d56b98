-- ===== src/Sticker/Tests.antt =====
-- Examples for internal/sticker.
use x_sticker_bot.Base.{
  ℕ, ◌≡◌, ◌≢◌, ◌↔◌, true, if◌then◌else◌, refl, false, Option, none, some, List, [], ◌∷◌, arith, map,
  sum_by, All, Bytes, codes, eq_bytes, eq_bytes_iff, lookup,
}
use x_sticker_bot.Base.FilePath.{AbsPath, base, path_eq, eq_path}
use x_sticker_bot.Sticker.Files.{match_filter, Visit, ls_files_r, ls_files}
use x_sticker_bot.Sticker.Files.Filter.{
  Matches, Seen, Listed, all_readable, match_filter_lem, ls_files_lem, ls_files_r_lem,
}
use x_sticker_bot.Sticker.Archive.{Os, duplicate_name, duplicate, Disk, f_compress}
use x_sticker_bot.Sticker.Archive.Contents.{
  Members, Distinct, Readable, f_compress_success, f_compress_total,
}
use x_sticker_bot.Sticker.Volumes.{volumes_of}
use x_sticker_bot.Sticker.Volumes.Packing.{concat, Fits, Tight, volumes_of_lem}

-- A system where no call fails; of a file only the size is kept.
abbrev plain_os : Os
plain_os = record {
  Blob = ℕ;
  blob_size = λ b. b;
  empty_blob = 0;
  zip_blob = λ ms. sum_by (λ m. m.1) ms;
  stat_fails = λ p. false;
  create_fails = λ p. false;
  open_fails = λ p. false;
  write_fails = λ p. false;
  input_close_fails = λ p. false;
  finalize_fails = λ p. false;
  close_fails = λ p. false;
}

abbrev cat : AbsPath
cat = codes "cat.webp" ∷ codes "tmp" ∷ []

abbrev dog : AbsPath
dog = codes "dog.webp" ∷ codes "tmp" ∷ []

abbrev other_cat : AbsPath
other_cat = codes "cat.webp" ∷ codes "old" ∷ []

abbrev zip_path : AbsPath
zip_path = codes "set.zip" ∷ codes "tmp" ∷ []

abbrev disk : Disk plain_os
disk = (cat, 30_000_000) ∷ (dog, 40_000_000) ∷ []

abbrev pets : List AbsPath
pets = cat ∷ dog ∷ []

cat-ne-zip : cat ≢ zip_path
cat-ne-zip e = cc e

dog-ne-zip : dog ≢ zip_path
dog-ne-zip e = cc e

cats-error :
    (f_compress plain_os disk zip_path (cat ∷ other_cat ∷ [])).0
    ≡ some (duplicate_name (codes "cat.webp"))
unfolding f_compress duplicate eq_bytes base
cats-error = refl

pets-Readable : All (Readable plain_os disk) pets
unfolding lookup eq_path eq_bytes
pets-Readable =
    ((refl, refl, refl, λ e. absurd (cc e)), ((refl, refl, refl, λ e. absurd (cc e)), tt))

pets-Distinct : Distinct (map base pets)
unfolding base eq_bytes
pets-Distinct = ground (arith, eq_bytes_iff (codes "dog.webp") (codes "cat.webp"))

pets-compressed : (f_compress plain_os disk zip_path pets).0 ≡ none
pets-compressed =
    f_compress_total plain_os disk zip_path pets pets-Readable pets-Distinct refl refl refl

f_compress_success_example :
    (ms : List (Bytes × ℕ)) × (lookup zip_path (f_compress plain_os disk zip_path pets).1
      ≡ some (sum_by (λ m. m.1) ms))
    × Members plain_os disk pets ms
    × Distinct (map base pets)
f_compress_success_example =
    f_compress_success plain_os disk zip_path pets (cat-ne-zip, (dog-ne-zip, tt)) pets-compressed

abbrev sizes : AbsPath → Option ℕ
sizes p = some 30_000_000

abbrev three : List AbsPath
three = cat ∷ dog ∷ other_cat ∷ []

volumes_of_lem_example :
    (concat sizes (volumes_of sizes three) ≡ three)
    × All (Fits sizes) (volumes_of sizes three)
    × Tight sizes (volumes_of sizes three)
volumes_of_lem_example = volumes_of_lem sizes three (omega arith)

abbrev frames : List Visit
frames =
    record { path = codes "/tmp/Frame_1.PNG"; is_dir = some false }
    ∷ record { path = codes "/tmp/frames"; is_dir = some true }
    ∷ record { path = codes "/tmp/gone.png"; is_dir = none }
    ∷ []

abbrev png : List Bytes
png = codes "png" ∷ []

abbrev gone : List Bytes
gone = codes "Gone" ∷ []

match_filter_lem_example :
    (match_filter (codes "/tmp/Frame_1.PNG") png gone ≡ true)
    ↔ Matches (codes "/tmp/Frame_1.PNG") png gone
match_filter_lem_example = match_filter_lem (codes "/tmp/Frame_1.PNG") png gone

ls_files_lem_example :
    Listed (codes "/tmp/gone.png") (ls_files (some frames) png [])
    ↔ (Seen (codes "/tmp/gone.png") frames × Matches (codes "/tmp/gone.png") png [])
ls_files_lem_example = ls_files_lem frames png [] (codes "/tmp/gone.png")

ls_files_r_lem_example :
    ls_files_r frames png gone
    ≡ (if all_readable frames then ls_files (some frames) png gone else [])
ls_files_r_lem_example = ls_files_r_lem frames png gone
