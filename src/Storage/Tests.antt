-- ===== src/Storage/Tests.antt =====
-- Examples for internal/storage.
use x_sticker_bot.Base.{
  ℕ, Bool, Bytes, ◌&&◌, ltb, ◌<◌, ◌≡◌, ◌≢◌, ◌↔◌, refl, true, false, none, some, List, [], ◌∷◌,
  arith, if◌then◌else◌, count_if, All, codes, eq_bytes_iff, ap, lookup, insert,
}
use x_sticker_bot.Base.FilePath.{AbsPath, IsClean, IsSegment, join, path_eq, eq_path, to_bytes}
use x_sticker_bot.Base.Int.{pos}
use x_sticker_bot.Storage.Temp.{
  Fs, under, Sys, TempManager, user_dir_name, new_dir_name, resolve, create_user_dir, safe_path,
  erase_under, clean_user_dir, read_dir, purge_outdated, Node,
}
use x_sticker_bot.Storage.Temp.Paths.{HasCleanCwd, safe_path_lem, under-append}
use x_sticker_bot.Storage.Temp.Cleaning.{
  Managed, Unmanaged, clean_user_dir_lem, clean-create, create_user_dir_lem,
}
use x_sticker_bot.Storage.Temp.Purging.{IsOutdated, purged, purge_outdated_lem}
use x_sticker_bot.Storage.Temp.AutoClean.{
  Signal, created, cleaned, wrote, ticked, stopped, IsProper, start_auto_clean,
  start_auto_clean_frame,
}

-- A system with no working directory, where no call fails.
abbrev plain_sys : Sys
plain_sys = record {
  cwd = none;
  mkdir_fails = λ p. false;
  read_dir_fails = λ p. false;
  info_fails = λ p. false;
  remove_fails = λ p. false;
  partial_remove = λ p fs. fs;
  partial_outside = λ p q fs h. refl;
}

abbrev tmp : TempManager
tmp = record { base_dir = codes "tmp" ∷ [] }

abbrev eight_bytes : List ℕ
eight_bytes = 1 ∷ 2 ∷ 3 ∷ 4 ∷ 5 ∷ 6 ∷ 7 ∷ 255 ∷ []

eight_bytes-All : All (λ b. b < 256) eight_bytes
eight_bytes-All = ground arith

plain-HasCleanCwd : HasCleanCwd plain_sys
plain-HasCleanCwd here e = cc e

tmp-IsSegment : IsSegment (codes "tmp")
tmp-IsSegment = ground arith

tmp-IsClean : IsClean tmp.base_dir
tmp-IsClean = (tmp-IsSegment, tt)

safe_path_lem_example :
    (safe_path plain_sys tmp (codes "/tmp/../etc") ≡ some (codes "etc" ∷ [])) ↔ (
      (resolve plain_sys (codes "/tmp/../etc") ≡ some (codes "etc" ∷ []))
      × (under tmp.base_dir (codes "etc" ∷ []) ≡ true))
safe_path_lem_example =
    safe_path_lem plain_sys tmp (codes "/tmp/../etc") (codes "etc" ∷ []) plain-HasCleanCwd
      tmp-IsClean

abbrev new_dir : AbsPath
new_dir = join tmp.base_dir (new_dir_name (pos 42) eight_bytes)

abbrev one_dir : Fs
one_dir = insert new_dir (record { is_dir = true; mod_time = 9 }) []

makes_new_dir :
    create_user_dir plain_sys [] 9 tmp (pos 42) (some eight_bytes) ≡ some (new_dir, one_dir)
unfolding create_user_dir lookup
makes_new_dir = refl

clean-create_example :
    clean_user_dir plain_sys one_dir tmp (to_bytes new_dir) ≡ (true, erase_under new_dir one_dir)
clean-create_example =
    clean-create plain_sys [] one_dir 9 tmp 42 eight_bytes new_dir plain-HasCleanCwd tmp-IsClean
      refl eight_bytes-All makes_new_dir refl

dir-removed : (clean_user_dir plain_sys one_dir tmp (to_bytes new_dir)).0 ≡ true
dir-removed =
    ap (λ r. r.0)
      (clean-create plain_sys [] one_dir 9 tmp 42 eight_bytes new_dir plain-HasCleanCwd tmp-IsClean
        refl eight_bytes-All makes_new_dir refl)

clean_user_dir_lem_example :
    (p : AbsPath) × (resolve plain_sys (to_bytes new_dir) ≡ some p)
    × Managed one_dir tmp p
    × ((q : AbsPath)
        → lookup q (clean_user_dir plain_sys one_dir tmp (to_bytes new_dir)).1
          ≡ (if under p q then none else lookup q one_dir))
clean_user_dir_lem_example = clean_user_dir_lem plain_sys one_dir tmp (to_bytes new_dir) dir-removed

-- The entries that are older than 10 at 100.
abbrev old_entry : Bytes × Node → Bool
old_entry (name, node) = user_dir_name name && (node.is_dir && ltb node.mod_time 90)

old_entry_iff : (e : Bytes × Node) → (old_entry e ≡ true) ↔ IsOutdated plain_sys tmp 100 10 e
old_entry_iff (name, node) = ground arith

purge_outdated_lem_example :
    ((purge_outdated plain_sys tmp 100 10 one_dir).0
      ≡ some (count_if old_entry (read_dir one_dir tmp.base_dir)))
    × ((q : AbsPath)
        → lookup q (purge_outdated plain_sys tmp 100 10 one_dir).1 ≡ (
            if purged plain_sys tmp 100 10 old_entry q (read_dir one_dir tmp.base_dir)
            then none
            else lookup q one_dir))
purge_outdated_lem_example =
    purge_outdated_lem plain_sys tmp 100 10 (λ p. refl) old_entry one_dir old_entry_iff refl

abbrev stats_db : AbsPath
stats_db = codes "stats.db" ∷ codes "tmp" ∷ []

stats_db-Unmanaged : Unmanaged tmp stats_db
unfolding user_dir_name under eq_path
stats_db-Unmanaged name h =
    let other : name ≢ codes "stats.db" = λ e. cc (ap user_dir_name e) in
    ground (arith, eq_bytes_iff name (codes "stats.db"))

abbrev archive : AbsPath
archive = codes "set.zip" ∷ new_dir

abbrev one_day : List Signal
one_day =
    created plain_sys 9 42 eight_bytes
    ∷ wrote archive (record { is_dir = false; mod_time = 10 })
    ∷ ticked plain_sys 3600
    ∷ cleaned plain_sys (codes "/tmp/../etc")
    ∷ cleaned plain_sys (to_bytes new_dir)
    ∷ ticked plain_sys 7200
    ∷ stopped
    ∷ []

archive-IsProper : IsProper tmp (wrote archive (record { is_dir = false; mod_time = 10 }))
archive-IsProper =
    let (name, path, named, _) =
      create_user_dir_lem plain_sys [] one_dir 9 tmp 42 eight_bytes new_dir refl eight_bytes-All
        makes_new_dir in
    (name, named, rw path (under-append (name ∷ tmp.base_dir) (codes "set.zip" ∷ [])))

one_day-IsProper : All (IsProper tmp) one_day
one_day-IsProper = ((refl, eight_bytes-All), (archive-IsProper, (tt, (tt, (tt, (tt, (tt, tt)))))))

abbrev with_stats_db : Fs
with_stats_db = insert stats_db (record { is_dir = false; mod_time = 1 }) []

start_auto_clean_frame_example :
    lookup stats_db (start_auto_clean tmp 86400 true one_day with_stats_db)
    ≡ lookup stats_db with_stats_db
start_auto_clean_frame_example =
    start_auto_clean_frame tmp 86400 one_day true with_stats_db stats_db one_day-IsProper
      stats_db-Unmanaged
