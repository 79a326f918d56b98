-- ===== src/Command/Links.antt =====
-- findTGLink and getSIDFromMessage of internal/command/download.go, and path.Base. A text is the
-- list of its code points; url.Parse is a parameter.
pub mod Names
use x_sticker_bot.Base.{
  ℕ, Bool, true, false, ◌&&◌, ◌||◌, not, Option, none, some, List, [], ◌∷◌, ◌++◌, if◌then◌else◌,
  leb, ltb, ◌==◌, Bytes, codes, eq_bytes, has_prefix, trim_prefix, contains_byte,
}
use mathlib.Core.List.{reverse}
use x_sticker_bot.Telegram.{Sticker, Message}

-- unicode.IsSpace.
abbrev pub is_space : ℕ → Bool
is_space c =
    (leb 9 c && leb c 13)
    || ((c == 0x20)
        || ((c == 0x85)
            || ((c == 0xa0)
                || ((c == 0x1680)
                    || ((leb 0x2000 c && leb c 0x200a)
                        || ((leb 0x2028 c && leb c 0x2029)
                            || ((c == 0x202f) || ((c == 0x205f) || (c == 0x3000)))))))))

abbrev pub end_word : Bytes → List Bytes → List Bytes
end_word [] ws = ws
end_word (c ∷ w) ws = (c ∷ w) ∷ ws

-- strings.Fields; `cur` is the word so far.
pub fields_from : Bytes → Bytes → List Bytes
fields_from [] cur = end_word cur []
fields_from (c ∷ s) cur = elim (is_space c) [
  | true ↦ end_word cur (fields_from s [])
  | false ↦ fields_from s (cur ++ c ∷ [])
]

pub fields : Bytes → List Bytes
unfolding fields_from
fields text = fields_from text []

-- The fields of url.URL that are read.
pub record Url : Type 0 where
  pub scheme : Bytes
  pub host : Bytes
  pub has_user : Bool
  pub raw_query : Bytes
  pub fragment : Bytes
  pub url_path : Bytes
  pub raw_path : Bytes

abbrev pub is_name_char : ℕ → Bool
is_name_char c =
    (leb b'a' c && leb c b'z')
    || ((leb b'A' c && leb c b'Z') || ((leb b'0' c && leb c b'9') || (c == b'_')))

pub valid_name : Bytes → Bool
valid_name [] = true
valid_name (c ∷ s) = is_name_char c && valid_name s

abbrev pub sticker_path : Bytes
sticker_path = codes "/addstickers/"

-- The tests on the parsed word.
pub plain_host : Url → Bool
plain_host u =
    (eq_bytes u.scheme (codes "http") || eq_bytes u.scheme (codes "https"))
    && ((eq_bytes u.host (codes "t.me") || eq_bytes u.host (codes "telegram.me"))
        && (not u.has_user
            && (eq_bytes u.raw_query [] && (eq_bytes u.fragment [] && eq_bytes u.raw_path []))))

pub set_name_of : Url → Option Bytes
unfolding plain_host
set_name_of u =
    let name = trim_prefix u.url_path sticker_path in
    if not (plain_host u)
    then none
    else if not (has_prefix u.url_path sticker_path)
    then none
    else if eq_bytes name [] || contains_byte b'/' name
    then none
    else if valid_name name
    then some name
    else none

module _ (parse_url : Bytes → Option Url) where
  pub is_link : Bytes → Bool
  unfolding set_name_of
  is_link word =
      if contains_byte b'?' word || contains_byte b'#' word then false else elim (parse_url word) [
        | none ↦ false
        | some u ↦ elim (set_name_of u) [ none ↦ false | some _ ↦ true ]
      ]

  pub first_link : List Bytes → Option Bytes
  first_link [] = none
  first_link (w ∷ ws) = if is_link w then some w else first_link ws

  pub find_tg_link : Bytes → Option Bytes
  unfolding first_link is_link
  find_tg_link text = first_link (fields text)

-- path.Base.
abbrev pub drop_slashes : Bytes → Bytes
drop_slashes [] = []
drop_slashes (c ∷ s) = elim (c == b'/') [ true ↦ drop_slashes s | false ↦ c ∷ s ]

abbrev pub up_to_slash : Bytes → Bytes
up_to_slash [] = []
up_to_slash (c ∷ s) = elim (c == b'/') [ true ↦ [] | false ↦ c ∷ up_to_slash s ]

unfoldable pub path_base : Bytes → Bytes
path_base [] = b'.' ∷ []
path_base (c ∷ s) = elim (reverse (up_to_slash (drop_slashes (reverse (c ∷ s))))) [
  | [] ↦ b'/' ∷ []
  | d ∷ t ↦ d ∷ t
]

-- getSIDFromMessage; the empty text means that there is none.
unfoldable pub get_sid_from_message : (Bytes → Option Url) → Message → Bytes
unfolding path_base
get_sid_from_message parse_url msg = elim msg.sticker [
  | some s ↦ s.set_name
  | none ↦ elim (find_tg_link parse_url msg.text) [ none ↦ [] | some link ↦ path_base link ]
]
