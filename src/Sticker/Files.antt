-- ===== src/Sticker/Files.antt =====
-- LsFilesR, LsFiles and matchFilter of internal/sticker/util.go. What filepath.Walk and
-- filepath.Glob visit, in their order, are lists; letters are those of ASCII.
pub mod Filter
use x_sticker_bot.Base.{
  ℕ, Bool, true, false, not, Option, none, some, List, [], ◌∷◌, if◌then◌else◌, Bytes, contains,
  to_lower,
}

pub has_all : Bytes → List Bytes → Bool
has_all lower [] = true
has_all lower (kw ∷ kws) = if not (contains lower (to_lower kw)) then false else has_all lower kws

pub has_none : Bytes → List Bytes → Bool
has_none lower [] = true
has_none lower (kw ∷ kws) = if contains lower (to_lower kw) then false else has_none lower kws

pub match_filter : Bytes → List Bytes → List Bytes → Bool
unfolding has_all has_none
match_filter path must_have must_not_have =
    let lower = to_lower path in
    if has_all lower must_have then has_none lower must_not_have else false

-- A path that is visited; `is_dir` is `none` where it cannot be read.
pub record Visit : Type 0 where
  pub path : Bytes
  pub is_dir : Option Bool

-- The walk ends at the first error.
pub walk : List Bytes → List Bytes → List Visit → Option (List Bytes)
walk must_have must_not_have [] = some []
walk must_have must_not_have (v ∷ vs) =
    let rest = walk must_have must_not_have vs in
    elim v.is_dir [
      | none ↦ none
      | some true ↦ rest
      | some false ↦
          if match_filter v.path must_have must_not_have
          then elim rest [ none ↦ none | some files ↦ some (v.path ∷ files) ]
          else rest
    ]

pub ls_files_r : List Visit → List Bytes → List Bytes → List Bytes
unfolding walk
ls_files_r visits must_have must_not_have = elim (walk must_have must_not_have visits) [
  | none ↦ []
  | some files ↦ files
]

-- `entries` is `none` if the pattern is malformed; an entry that cannot be read is passed over.
pub select : List Bytes → List Bytes → List Visit → List Bytes
select must_have must_not_have [] = []
select must_have must_not_have (v ∷ vs) =
    let rest = select must_have must_not_have vs in
    elim v.is_dir [
      | none ↦ rest
      | some true ↦ rest
      | some false ↦ if match_filter v.path must_have must_not_have then v.path ∷ rest else rest
    ]

pub ls_files : Option (List Visit) → List Bytes → List Bytes → List Bytes
unfolding select
ls_files entries must_have must_not_have = elim entries [
  | none ↦ []
  | some visits ↦ select must_have must_not_have visits
]
