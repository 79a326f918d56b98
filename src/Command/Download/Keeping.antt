-- ===== src/Command/Download/Keeping.antt =====
-- The work of the handlers stays below their directory.
use x_sticker_bot.Base.{
  ℕ, ◌≡◌, ◌≢◌, ◌⊎◌, ap, sym, subst, true, false, ◌||◌, Option, none, some, List, [], ◌∷◌, ◌++◌,
  arith, Bytes, codes, eq_bytes, eq_bytes_iff, All-append, Bool-cases, Option-cases, inl, inr,
  append_assoc,
}
use x_sticker_bot.Base.FilePath.{AbsPath, path_eq, IsSegment, Lacks, slash, join, join_name}
use x_sticker_bot.Telegram.{Sticker}
use x_sticker_bot.Storage.Temp.{Fs}
use x_sticker_bot.Command.Services.{within, Keeps, Services}
use x_sticker_bot.Command.Services.Keeping.{Keeps-trans, mixed, within_self}
use x_sticker_bot.Command.Sets.Files.{download_sticker_set-Keeps}
use x_sticker_bot.Command.Download.{
  file_prefix, convert_single, download_single_sticker, convert_animation, download_animation,
  download_id, download_into,
}

pub not_child : (x : Bytes) (p q : AbsPath) → within p q ≡ false → q ≢ x ∷ p
not_child x p q out e = ground (arith, within_self x p, ap (within p) e)

-- The set's name is a plain file name; a sticker may have none.
abbrev pub Named : Option Sticker → Bytes → Type 0
Named none set_id = IsSegment set_id
Named (some st) set_id = (st.set_name ≡ []) ⊎ IsSegment st.set_name

module _ (s : Services) where
  convert_single-Keeps :
      (fs : Fs) (st : Sticker) (dir f : AbsPath)
      → within dir f ≡ true
      → Keeps dir fs (convert_single s fs st f).1
  unfolding convert_single
  convert_single-Keeps fs st dir f h = elim (Bool-cases (st.is_video || st.is_animated)) [
    | inl e ↦ elim (Option-cases (s.to_gif fs f).0) [
      | inl e' ↦ rw (e, e') (s.to_gif-Beside fs dir f h).0
      | inr (p, e') ↦ rw (e, e') (s.to_gif-Beside fs dir f h).0
    ]
    | inr e ↦ elim (Option-cases (s.to_png fs f).0) [
      | inl e' ↦ rw (e, e') (s.to_png-Beside fs dir f h).0
      | inr (p, e') ↦ rw (e, e') (s.to_png-Beside fs dir f h).0
    ]
  ]

  file_prefix-Lacks :
      (set_name : Bytes) → Lacks slash set_name → Lacks slash (file_prefix s set_name)
  unfolding file_prefix
  file_prefix-Lacks set_name h = elim (Bool-cases (eq_bytes set_name [])) [
    | inl e ↦ rw e (ground arith)
    | inr e ↦ rw e h
  ]

  download_single-Keeps :
      (fs : Fs) (st : Sticker) (dir : AbsPath)
      → Lacks slash st.set_name
      → Keeps dir fs (download_single_sticker s fs st dir).1
  unfolding download_single_sticker
  download_single-Keeps fs st dir plain =
      let name = file_prefix s st.set_name ++ b'_' ∷ s.hex 2 in
      let seg =
        mixed (file_prefix s st.set_name) (s.hex 2) b'_' (ground arith) (ground arith)
          (file_prefix-Lacks st.set_name plain) (s.hex-Lacks 2) in
      let (kept, below) = s.fetch-Keeps fs st.file_id dir name seg in
      let fs' = (s.fetch fs st.file_id dir name).1 in
      elim (Option-cases (s.fetch fs st.file_id dir name).0) [
        | inl e ↦ rw (e, download_single_sticker) kept
        | inr (f, e) ↦
            rw (e, download_single_sticker)
              (Keeps-trans dir fs fs' (convert_single s fs' st f).1 kept
                (convert_single-Keeps fs' st dir f (below f e)))
      ]

  -- SecHex(4) + ".zip" is a name.
  zip-within : (dir : AbsPath) → within dir (join dir (s.hex 4 ++ codes ".zip")) ≡ true
  zip-within dir =
      let name = s.hex 4 ++ codes ".zip" in
      let seg =
        mixed (s.hex 4 ++ b'.' ∷ []) (codes "ip") b'z' (ground arith) (ground arith)
          (All-append (λ c. c ≢ slash) (s.hex 4) (b'.' ∷ []) (s.hex-Lacks 4) (ground arith))
          (ground arith) in
      rw
        (join_name dir name
          (subst IsSegment (append_assoc (s.hex 4) (b'.' ∷ []) (codes "zip")) seg))
        (within_self name dir)

  convert_animation-Keeps :
      (fs : Fs) (dir f : AbsPath)
      → within dir f ≡ true
      → Keeps dir fs (convert_animation s fs dir f).1
  unfolding convert_animation
  convert_animation-Keeps fs dir f h =
      let fs' = (s.to_gif fs f).1 in
      let (kept, below) = s.to_gif-Beside fs dir f h in
      let zip = join dir (s.hex 4 ++ codes ".zip") in
      elim (Option-cases (s.to_gif fs f).0) [
        | inl e ↦ rw (e, convert_animation) kept
        | inr (p, e) ↦
            let both =
              Keeps-trans dir fs fs' (s.f_compress fs' zip (p ∷ [])).1 kept
                (s.f_compress-Keeps fs' dir zip (p ∷ []) (zip-within dir)) in
            elim (Bool-cases (s.f_compress fs' zip (p ∷ [])).0) [
              | inl e' ↦ rw (e, e', convert_animation) both
              | inr e' ↦ rw (e, e', convert_animation) both
            ]
      ]

  pub download_animation-Keeps :
      (fs : Fs) (file_id : Bytes) (dir : AbsPath)
      → Keeps dir fs (download_animation s fs file_id dir).1
  unfolding download_animation
  download_animation-Keeps fs file_id dir =
      let name = codes "animation_MP4" in
      let (kept, below) = s.fetch-Keeps fs file_id dir name (
        mixed (codes "animation") (codes "MP4") b'_' (ground arith) (ground arith) (ground arith)
          (ground arith)) in
      let fs' = (s.fetch fs file_id dir name).1 in
      elim (Option-cases (s.fetch fs file_id dir name).0) [
        | inl e ↦ rw (e, download_animation) kept
        | inr (f, e) ↦
            rw (e, download_animation)
              (Keeps-trans dir fs fs' (convert_animation s fs' dir f).1 kept
                (convert_animation-Keeps fs' dir f (below f e)))
      ]

  pub download_id-IsSegment :
      (st : Option Sticker) (set_id : Bytes) → Named st set_id → IsSegment (download_id s st set_id)
  unfolding download_id
  download_id-IsSegment none set_id h = h
  download_id-IsSegment (some st) set_id h = elim (Bool-cases (eq_bytes st.set_name [])) [
    | inl e ↦ rw e (
        mixed (codes "sticker") (s.hex 4) b'_' (ground arith) (ground arith) (ground arith)
          (s.hex-Lacks 4))
    | inr e ↦ rw e (elim h [
      | inl empty ↦ absurd (ground (arith, eq_bytes_iff st.set_name []))
      | inr seg ↦ seg
    ])
  ]

  pub download_into-Keeps :
      (fs : Fs) (st : Option Sticker) (set_id : Bytes) (schedule : List (ℕ × ℕ)) (dir : AbsPath)
      → Named st set_id
      → Keeps dir fs (download_into s fs st set_id schedule dir).1
  unfolding download_into
  download_into-Keeps fs none set_id schedule dir h =
      download_sticker_set-Keeps s set_id dir fs schedule h.3
  download_into-Keeps fs (some st) set_id schedule dir (inl e) =
      download_single-Keeps fs st dir (subst (Lacks slash) (sym e) tt)
  download_into-Keeps fs (some st) set_id schedule dir (inr h) = download_single-Keeps fs st dir h.3
