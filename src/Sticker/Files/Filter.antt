-- ===== src/Sticker/Files/Filter.antt =====
-- Which files are listed.
use x_sticker_bot.Base.{
  ◌≡◌, ◌↔◌, ◌⊎◌, inl, inr, refl, ap, Bool, true, false, ◌&&◌, is_some, none, some, List, [], ◌∷◌,
  ◌++◌, arith, if◌then◌else◌, All, Bytes, has_prefix, trim_prefix, contains, to_lower,
  has_prefix-append, has_prefix-trim, Bool-cases,
}
use x_sticker_bot.Sticker.Files.{
  has_all, has_none, match_filter, Visit, walk, ls_files_r, select, ls_files,
}

-- The text has the keyword somewhere in it.
abbrev pub Occurs : Bytes → Bytes → Type 0
Occurs s p = (before : Bytes) × (after : Bytes) × (s ≡ before ++ (p ++ after))

contains-Occurs : (s p : Bytes) → contains s p ≡ true → Occurs s p
unfolding contains
contains-Occurs [] p h = ([], trim_prefix [] p, has_prefix-trim [] p h)
contains-Occurs (c ∷ s) p h = elim (Bool-cases (has_prefix (c ∷ s) p)) [
  | inl here ↦ ([], trim_prefix (c ∷ s) p, has_prefix-trim (c ∷ s) p here)
  | inr later ↦
      let (before, after, e) = contains-Occurs s p (ground arith) in
      (c ∷ before, after, ap (λ l. c ∷ l) e)
]

contains-prefix : (p after : Bytes) → contains (p ++ after) p ≡ true
unfolding contains
contains-prefix [] [] = unfold has_prefix in refl
contains-prefix [] (c ∷ after) = unfold has_prefix in refl
contains-prefix (c ∷ p) after = ground (arith, has_prefix-append (c ∷ p) after)

Occurs-contains : (before p after : Bytes) → contains (before ++ (p ++ after)) p ≡ true
unfolding contains
Occurs-contains [] p after = contains-prefix p after
Occurs-contains (c ∷ before) p after = ground (arith, Occurs-contains before p after)

-- What the filter is for: every keyword of the first list, whatever its case, and none of the
-- second.
abbrev pub Matches : Bytes → List Bytes → List Bytes → Type 0
Matches path must_have must_not_have =
    All (λ kw. Occurs (to_lower path) (to_lower kw)) must_have
    × All (λ kw. Occurs (to_lower path) (to_lower kw) → ⊥) must_not_have

has_all_iff :
    (s : Bytes) (kws : List Bytes) → (has_all s kws ≡ true) ↔ All (λ kw. Occurs s (to_lower kw)) kws
unfolding has_all
has_all_iff s [] = ((λ h. tt), λ h. refl)
has_all_iff s (kw ∷ kws) =
    let (f, g) = has_all_iff s kws in
    (
      (λ h. (contains-Occurs s (to_lower kw) (ground arith), f (ground arith))),
      λ ((before, after, e), rest).
          let here : contains s (to_lower kw) ≡ true =
            rw e (Occurs-contains before (to_lower kw) after) in
          ground (arith, here, g rest),
    )

has_none_iff :
    (s : Bytes) (kws : List Bytes)
    → (has_none s kws ≡ true) ↔ All (λ kw. Occurs s (to_lower kw) → ⊥) kws
unfolding has_none
has_none_iff s [] = ((λ h. tt), λ h. refl)
has_none_iff s (kw ∷ kws) =
    let (f, g) = has_none_iff s kws in
    (
      (λ h. (absent (ground arith), f (ground arith))),
      λ (never, rest). elim (Bool-cases (contains s (to_lower kw))) [
        | inl here ↦ absurd (never (contains-Occurs s (to_lower kw) here))
        | inr gone ↦ ground (arith, gone, g rest)
      ],
    )
  where
    absent : contains s (to_lower kw) ≡ false → Occurs s (to_lower kw) → ⊥
    absent gone (before, after, e) =
        let here : contains s (to_lower kw) ≡ true =
          rw e (Occurs-contains before (to_lower kw) after) in
        cc (gone, here)

-- matchFilter accepts a path exactly if each keyword of the first list occurs in it and none of
-- the second does, in whatever case they are written.
pub match_filter_lem :
    (path : Bytes) (must_have must_not_have : List Bytes)
    → (match_filter path must_have must_not_have ≡ true) ↔ Matches path must_have must_not_have
unfolding match_filter
match_filter_lem path must_have must_not_have =
    let (f, g) = has_all_iff (to_lower path) must_have in
    let (f', g') = has_none_iff (to_lower path) must_not_have in
    (
      (λ h. (f (ground arith), f' (ground arith))),
      λ (every, no_one). ground (arith, g every, g' no_one),
    )

-- A visited file that can be read.
abbrev pub Seen : Bytes → List Visit → Type 0
Seen p [] = ⊥
Seen p (v ∷ vs) = ((v.path ≡ p) × (v.is_dir ≡ some false)) ⊎ Seen p vs

abbrev pub Listed : Bytes → List Bytes → Type 0
Listed p [] = ⊥
Listed p (q ∷ qs) = (q ≡ p) ⊎ Listed p qs

select-Listed :
    (must_have must_not_have : List Bytes) (vs : List Visit) (p : Bytes)
    → Listed p (select must_have must_not_have vs)
      ↔ (Seen p vs × (match_filter p must_have must_not_have ≡ true))
unfolding select
select-Listed must_have must_not_have [] p = ground arith
select-Listed must_have must_not_have (v ∷ vs) p =
    ground (arith, select-Listed must_have must_not_have vs p)

-- LsFiles lists exactly the entries that are readable, no directories, and match the keywords; an
-- entry that cannot be read takes none of the others with it.
pub ls_files_lem :
    (vs : List Visit) (must_have must_not_have : List Bytes) (p : Bytes)
    → Listed p (ls_files (some vs) must_have must_not_have)
      ↔ (Seen p vs × Matches p must_have must_not_have)
unfolding ls_files
ls_files_lem vs must_have must_not_have p =
    let (f, g) = select-Listed must_have must_not_have vs p in
    let (f', g') = match_filter_lem p must_have must_not_have in
    ((λ h. let (seen, ok) = f h in (seen, f' ok)), λ (seen, ok). g (seen, g' ok))

abbrev pub all_readable : List Visit → Bool
all_readable [] = true
all_readable (v ∷ vs) = is_some v.is_dir && all_readable vs

walk-select :
    (must_have must_not_have : List Bytes) (vs : List Visit)
    → walk must_have must_not_have vs
      ≡ (if all_readable vs then some (select must_have must_not_have vs) else none)
unfolding walk select
walk-select must_have must_not_have [] = refl
walk-select must_have must_not_have (v ∷ vs) =
    ground (arith, walk-select must_have must_not_have vs)

-- LsFilesR lists the same files as LsFiles would of the paths it walks over, in their order, if
-- it can read all of them, and otherwise none at all.
pub ls_files_r_lem :
    (vs : List Visit) (must_have must_not_have : List Bytes)
    → ls_files_r vs must_have must_not_have
      ≡ (if all_readable vs then ls_files (some vs) must_have must_not_have else [])
unfolding ls_files_r ls_files
ls_files_r_lem vs must_have must_not_have = ground (arith, walk-select must_have must_not_have vs)
