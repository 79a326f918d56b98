-- ===== src/Base/Html.antt =====
-- html.EscapeString, and the markup of a message in HTML mode as Telegram documents it.
use Prim.Native.Nat.{ℕ}
use mathlib.Core.Path.{◌≡◌, refl, ◌∙◌}
use mathlib.Core.Logic.{◌≢◌, inl, inr}
use mathlib.Core.Bool.{Bool, ◌||◌}
use mathlib.Core.List.{List, [], ◌∷◌, ◌++◌}
use mathlib.Core.Option.{Option, none, some}
use native.Mathlib.Omega.{arith}
use x_sticker_bot.Base.Tests.{◌==◌, if◌then◌else◌, Bool-cases}
use x_sticker_bot.Base.Text.{Bytes, codes, eq_bytes}
use x_sticker_bot.Base.Lists.{All}
use x_sticker_bot.Base.Decimal.{decimal, IsDigit, decimal-IsDigit}

-- html.EscapeString.
unfoldable pub escape_char : ℕ → Bytes
escape_char c =
    if c == b'&'
    then codes "&amp;"
    else if c == b'<'
    then codes "&lt;"
    else if c == b'>'
    then codes "&gt;"
    else if c == 34
    then codes "&#34;"
    else if c == 39
    then codes "&#39;"
    else c ∷ []

unfoldable pub escape_string : Bytes → Bytes
unfolding escape_char
escape_string [] = []
escape_string (c ∷ s) = escape_char c ++ escape_string s

-- Where a reader of the markup is: in the text, or in a tag or an entity of which it has read
-- this much.
pub data Place : Type 0 where
  in_text : Place
  in_tag in_entity : Bytes → Place

-- The place and the tags that are open, the last first; `none` is a markup that is refused.
abbrev pub Reading : Type 0
Reading = Option (Place × List Bytes)

-- The tags that the program uses.
abbrev pub is_tag : Bytes → Bool
is_tag name = eq_bytes name (codes "b") || eq_bytes name (codes "code")

abbrev pub is_entity : Bytes → Bool
is_entity name =
    eq_bytes name (codes "amp")
    || eq_bytes name (codes "lt")
    || eq_bytes name (codes "gt")
    || eq_bytes name (codes "#34")
    || eq_bytes name (codes "#39")

-- A tag closes the one that was opened last.
unfoldable pub end_tag : Bytes → List Bytes → Reading
unfolding eq_bytes
end_tag [] opened = none
end_tag (c ∷ name) opened =
    let closed : Reading = elim opened [
      | [] ↦ none
      | top ∷ rest ↦ if eq_bytes top name then some (in_text, rest) else none
    ] in
    if c == b'/'
    then closed
    else if is_tag (c ∷ name)
    then some (in_text, (c ∷ name) ∷ opened)
    else none

unfoldable pub read_char : Place → List Bytes → ℕ → Reading
unfolding end_tag eq_bytes
read_char in_text opened c =
    if c == b'<'
    then some (in_tag [], opened)
    else if c == b'&'
    then some (in_entity [], opened)
    else if c == b'>'
    then none
    else some (in_text, opened)
read_char (in_tag name) opened c =
    if c == b'>' then end_tag name opened else some (in_tag (name ++ c ∷ []), opened)
read_char (in_entity name) opened c =
    if c == b';'
    then (if is_entity name then some (in_text, opened) else none)
    else some (in_entity (name ++ c ∷ []), opened)

unfoldable pub read : Reading → Bytes → Reading
unfolding read_char
read r [] = r
read r (c ∷ s) = read (elim r [ none ↦ none | some (place, opened) ↦ read_char place opened c ]) s

pub read-append : (r : Reading) (s t : Bytes) → read r (s ++ t) ≡ read (read r s) t
unfolding read
read-append r [] t = refl
read-append r (c ∷ s) t =
    read-append (elim r [ none ↦ none | some (place, opened) ↦ read_char place opened c ]) s t

-- A text between whose tags all is closed that it opens, at any place in another.
abbrev pub IsNeutral : Bytes → Type 0
IsNeutral s = (opened : List Bytes) → read (some (in_text, opened)) s ≡ some (in_text, opened)

-- Telegram takes the text.
abbrev pub IsMarkup : Bytes → Type 0
IsMarkup s = read (some (in_text, [])) s ≡ some (in_text, [])

pub append-IsNeutral : (s t : Bytes) → IsNeutral s → IsNeutral t → IsNeutral (s ++ t)
append-IsNeutral s t h k opened =
    read-append (some (in_text, opened)) s t ∙ rw (h opened) (k opened)

plain_char :
    (c : ℕ) (opened : List Bytes)
    → (c ≢ b'<') × (c ≢ b'&') × (c ≢ b'>')
    → read_char in_text opened c ≡ some (in_text, opened)
unfolding read_char
plain_char c opened h = ground arith

escape_char-IsNeutral : (c : ℕ) → IsNeutral (escape_char c)
unfolding escape_char read
escape_char-IsNeutral c opened = elim (Bool-cases (c == b'&')) [
  | inl amp ↦ rw amp refl
  | inr a ↦ elim (Bool-cases (c == b'<')) [
    | inl lt ↦ rw (a, lt) refl
    | inr l ↦ elim (Bool-cases (c == b'>')) [
      | inl gt ↦ rw (a, l, gt) refl
      | inr g ↦ elim (Bool-cases (c == 34)) [
        | inl quote ↦ rw (a, l, g, quote) refl
        | inr q ↦ elim (Bool-cases (c == 39)) [
          | inl single ↦ rw (a, l, g, q, single) refl
          | inr n ↦
              rw (a, l, g, q, n) (plain_char c opened (ground arith, ground arith, ground arith))
        ]
      ]
    ]
  ]
]

pub escape_string-IsNeutral : (s : Bytes) → IsNeutral (escape_string s)
unfolding escape_string read
escape_string-IsNeutral [] opened = refl
escape_string-IsNeutral (c ∷ s) opened =
    append-IsNeutral (escape_char c) (escape_string s) (escape_char-IsNeutral c)
      (escape_string-IsNeutral s) opened

-- Texts with no character that begins a tag or an entity or ends a tag.
abbrev pub IsPlain : Bytes → Type 0
IsPlain = All (λ c. (c ≢ b'<') × (c ≢ b'&') × (c ≢ b'>'))

pub plain-IsNeutral : (s : Bytes) → IsPlain s → IsNeutral s
unfolding read
plain-IsNeutral [] h opened = refl
plain-IsNeutral (c ∷ s) h opened = rw (plain_char c opened h.0) (plain-IsNeutral s h.1 opened)

digits-IsPlain : (s : Bytes) → All IsDigit s → IsPlain s
digits-IsPlain [] h = tt
digits-IsPlain (c ∷ s) h = (omega arith, digits-IsPlain s h.1)

pub decimal-IsNeutral : (n : ℕ) → IsNeutral (decimal n)
decimal-IsNeutral n = plain-IsNeutral (decimal n) (digits-IsPlain (decimal n) (decimal-IsDigit n))
