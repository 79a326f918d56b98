-- ===== src/Command/Links/Names.antt =====
-- What the bot takes for the name of a sticker set in a link.
use x_sticker_bot.Base.{
  ℕ, ◌≡◌, ◌≢◌, refl, sym, ap, subst, ◌∙◌, ◌⊎◌, inl, inr, Bool, true, false, ◌||◌, Option, none,
  some, List, [], ◌∷◌, ◌++◌, append_assoc, arith, ◌==◌, Bytes, codes, eq_bytes_iff, trim_prefix,
  has_prefix-trim, contains_byte, All, All-reverse, Bool-cases, Option-cases,
}
use mathlib.Core.List.{reverse, reverse-append, reverse-reverse, reverse-cons}
use x_sticker_bot.Base.FilePath.{slash}
use x_sticker_bot.Telegram.{Message}
use x_sticker_bot.Command.Links.{
  Url, is_name_char, valid_name, sticker_path, plain_host, set_name_of, is_link, first_link,
  find_tg_link, fields, drop_slashes, up_to_slash, path_base, get_sid_from_message,
}

-- Letters, digits and underscores, at least one.
abbrev pub IsSetName : Bytes → Type 0
IsSetName name = (name ≢ []) × All (λ c. is_name_char c ≡ true) name

valid_name-All : (s : Bytes) → valid_name s ≡ true → All (λ c. is_name_char c ≡ true) s
unfolding valid_name
valid_name-All [] h = tt
valid_name-All (c ∷ s) h = (ground arith, valid_name-All s (ground arith))

set_name_of_lem :
    (u : Url) (name : Bytes)
    → set_name_of u ≡ some name
    → IsSetName name × (u.url_path ≡ sticker_path ++ name) × (plain_host u ≡ true)
unfolding set_name_of
set_name_of_lem u name h =
    let n = trim_prefix u.url_path sticker_path in
    let same : n ≡ name = ground arith in
    let valid : valid_name n ≡ true = ground arith in
    (
      (
        ground (arith, eq_bytes_iff n []),
        subst (All (λ c. is_name_char c ≡ true)) same (valid_name-All n valid),
      ),
      has_prefix-trim u.url_path sticker_path (ground arith) ∙ ap (λ l. sticker_path ++ l) same,
      ground arith,
    )

-- One of a list.
abbrev pub Among : Bytes → List Bytes → Type 0
Among w [] = ⊥
Among w (v ∷ vs) = (w ≡ v) ⊎ Among w vs

abbrev pub is_path_char : ℕ → Bool
is_path_char c = is_name_char c || (c == slash)

-- What url.Parse documents of RawPath: it is empty only if the word spells the path in the default
-- encoding, which leaves letters, digits, underscores and slashes as they are.
abbrev pub KeepsPath : (Bytes → Option Url) → Type 0
KeepsPath parse_url =
    (w : Bytes) (u : Url)
    → parse_url w ≡ some u
    → u.raw_path ≡ []
    → contains_byte b'?' w ≡ false
    → contains_byte b'#' w ≡ false
    → All (λ c. is_path_char c ≡ true) u.url_path
    → (start : Bytes) × (w ≡ start ++ u.url_path)

up_to_slash-append :
    (s rest : Bytes) → All (λ c. is_name_char c ≡ true) s → up_to_slash (s ++ slash ∷ rest) ≡ s
up_to_slash-append [] rest h = refl
up_to_slash-append (c ∷ s) rest h = ground (arith, up_to_slash-append s rest h.1)

drop_slashes-append :
    (s rest : Bytes)
    → s ≢ []
    → All (λ c. is_name_char c ≡ true) s
    → drop_slashes (s ++ rest) ≡ s ++ rest
drop_slashes-append [] rest ne h = absurd (ne refl)
drop_slashes-append (c ∷ s) rest ne h = ground arith

reverse-ne : (s : Bytes) → s ≢ [] → reverse s ≢ []
reverse-ne s ne e = ne (sym (reverse-reverse s) ∙ ap reverse e)

path_base-cases :
    (t : Bytes)
    → t ≢ []
    → reverse (up_to_slash (drop_slashes (reverse t))) ≢ []
    → path_base t ≡ reverse (up_to_slash (drop_slashes (reverse t)))
unfolding path_base
path_base-cases [] ne full = absurd (ne refl)
path_base-cases (c ∷ t) ne full =
    elim_word (reverse (up_to_slash (drop_slashes (reverse (c ∷ t))))) full
  where
    elim_word : (w : Bytes) → w ≢ [] → (elim w [ [] ↦ b'/' ∷ [] | d ∷ t ↦ d ∷ t ]) ≡ w
    elim_word [] full = absurd (full refl)
    elim_word (d ∷ t) full = refl

path_base-append : (start name : Bytes) → IsSetName name → path_base (start ++ slash ∷ name) ≡ name
path_base-append start name (ne, chars) =
    let t : Bytes = start ++ slash ∷ name in
    let back : reverse t ≡ reverse name ++ slash ∷ reverse start =
      rw (reverse-append start (slash ∷ name), reverse-cons slash name, append_assoc) refl in
    let chars' = All-reverse (λ c. is_name_char c ≡ true) name chars in
    let cut : up_to_slash (drop_slashes (reverse t)) ≡ reverse name =
      ap (λ l. up_to_slash (drop_slashes l)) back
      ∙ ap up_to_slash
          (drop_slashes-append (reverse name) (slash ∷ reverse start) (reverse-ne name ne) chars')
      ∙ up_to_slash-append (reverse name) (reverse start) chars' in
    let end : reverse (up_to_slash (drop_slashes (reverse t))) ≡ name =
      ap reverse cut ∙ reverse-reverse name in
    path_base-cases t (append-cons-ne start slash name) (λ e. ne (sym end ∙ e)) ∙ end
  where
    append-cons-ne : (s : Bytes) (c : ℕ) (r : Bytes) → s ++ c ∷ r ≢ []
    append-cons-ne [] c r = λ e. cc e
    append-cons-ne (d ∷ s) c r = λ e. cc e

name-path :
    (name : Bytes) → All (λ c. is_name_char c ≡ true) name → All (λ c. is_path_char c ≡ true) name
name-path [] h = tt
name-path (c ∷ name) h = (ground (arith, h.0), name-path name h.1)

-- What a message names: nothing, or the set name of the first link in it.
abbrev pub Named : (Bytes → Option Url) → List Bytes → Bytes → Type 0
Named parse_url words sid =
    ((sid ≡ []) × All (λ w. is_link parse_url w ≡ false) words)
    ⊎ ((w : Bytes) × (u : Url) × Among w words
        × (is_link parse_url w ≡ true)
        × (parse_url w ≡ some u)
        × (set_name_of u ≡ some sid)
        × IsSetName sid)

abbrev sid_of : Option Bytes → Bytes
sid_of o = elim o [ none ↦ [] | some link ↦ path_base link ]

link-name :
    (parse_url : Bytes → Option Url) (w : Bytes)
    → KeepsPath parse_url
    → is_link parse_url w ≡ true
    → (u : Url) × (parse_url w ≡ some u)
      × (set_name_of u ≡ some (path_base w))
      × IsSetName (path_base w)
unfolding is_link plain_host
link-name parse_url w keeps h = elim (Option-cases (parse_url w)) [
  | inl e ↦ absurd (ground arith)
  | inr (u, e) ↦ elim (Option-cases (set_name_of u)) [
    | inl e' ↦ absurd (ground arith)
    | inr (name, e') ↦
        let (good, at, plain) = set_name_of_lem u name e' in
        let clean : All (λ c. is_path_char c ≡ true) u.url_path = rw at (name_ok name good) in
        let (start, spelt) =
          keeps w u e (ground (arith, eq_bytes_iff u.raw_path [])) (ground arith) (ground arith)
            clean in
        let split : w ≡ (start ++ codes "/addstickers") ++ slash ∷ name =
          spelt
          ∙ ap (λ l. start ++ l) at
          ∙ sym (append_assoc start (codes "/addstickers") (slash ∷ name)) in
        let pb : path_base w ≡ name =
          ap path_base split ∙ path_base-append (start ++ codes "/addstickers") name good in
        (u, e, e' ∙ ap some (sym pb), subst IsSetName (sym pb) good)
  ]
]
  where
    name_ok :
        (name : Bytes) → IsSetName name → All (λ c. is_path_char c ≡ true) (sticker_path ++ name)
    name_ok name good = ground (arith, name-path name good.1)

first_link-Named :
    (parse_url : Bytes → Option Url) (words : List Bytes)
    → KeepsPath parse_url
    → Named parse_url words (sid_of (first_link parse_url words))
unfolding first_link
first_link-Named parse_url [] keeps = inl (refl, tt)
first_link-Named parse_url (w ∷ ws) keeps = elim (Bool-cases (is_link parse_url w)) [
  | inl hit ↦
      let (u, e, named, good) = link-name parse_url w keeps hit in
      rw (hit, first_link) (inr (w, u, inl refl, hit, e, named, good))
  | inr miss ↦ elim (first_link-Named parse_url ws keeps) [
    | inl (empty, none_of) ↦ rw (miss, first_link) (inl (empty, (refl, none_of)))
    | inr (v, u, among, found, parsed, named, good) ↦
        rw (miss, first_link) (inr (v, u, inr among, found, parsed, named, good))
  ]
]

-- With a url.Parse that keeps the spelling of plain paths: the name taken from the text of a
-- message without a sticker is empty exactly because no word of the text is a link, or it is the
-- set name in the path of a word that is a link, a non-empty text of letters, digits and
-- underscores.
pub get_sid_from_message_lem :
    (parse_url : Bytes → Option Url) (msg : Message)
    → KeepsPath parse_url
    → msg.sticker ≡ none
    → Named parse_url (fields msg.text) (get_sid_from_message parse_url msg)
unfolding get_sid_from_message find_tg_link
get_sid_from_message_lem parse_url msg keeps text_only =
    rw (text_only, get_sid_from_message) (first_link-Named parse_url (fields msg.text) keeps)

first_link-is_link :
    (parse_url : Bytes → Option Url) (ws : List Bytes) (w : Bytes)
    → first_link parse_url ws ≡ some w
    → is_link parse_url w ≡ true
unfolding first_link
first_link-is_link parse_url [] w h = absurd (cc h)
first_link-is_link parse_url (v ∷ ws) w h = elim (Bool-cases (is_link parse_url v)) [
  | inl hit ↦ let same : v ≡ w = ground arith in subst (λ x. is_link parse_url x ≡ true) same hit
  | inr miss ↦ first_link-is_link parse_url ws w (ground arith)
]

-- The last element of a link that is found is a set name.
pub find_tg_link-IsSetName :
    (parse_url : Bytes → Option Url) (text link : Bytes)
    → KeepsPath parse_url
    → find_tg_link parse_url text ≡ some link
    → IsSetName (path_base link)
unfolding find_tg_link
find_tg_link-IsSetName parse_url text link keeps h =
    let (_, _, _, good) =
      link-name parse_url link keeps (first_link-is_link parse_url (fields text) link h) in
    good
