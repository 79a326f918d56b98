-- ===== src/Command/Info/Markup.antt =====
-- The title, the name and the type of a set add no markup to the message.
use x_sticker_bot.Base.{
  ℕ, ◌+◌, ◌≡◌, refl, ◌∙◌, Bool, true, false, List, [], ◌∷◌, ◌++◌, arith, if◌then◌else◌, ◌==◌,
  length, Bytes, codes, All, count_if, count_if-append, sum_by, ltb, eq_bytes, Option, some, inl,
  inr, Bool-cases, Option-cases,
}
use x_sticker_bot.Base.Decimal.{decimal, IsDigit, decimal-IsDigit}
use x_sticker_bot.Base.Html.{
  escape_char, escape_string, Reading, in_text, read, read-append, IsNeutral, IsMarkup,
  append-IsNeutral, escape_string-IsNeutral, decimal-IsNeutral,
}
use x_sticker_bot.Telegram.{Sticker}
use x_sticker_bot.Command.Info.{
  StickerSet, type_text, count_kinds, count_line, concat_all, info_parts, info_text,
  handle_sticker_info,
}

-- How many tags begin.
abbrev pub tags : Bytes → ℕ
tags = count_if (λ c. c == b'<')

tags-escape_string : (s : Bytes) → tags (escape_string s) ≡ 0
unfolding escape_string escape_char
tags-escape_string [] = refl
tags-escape_string (c ∷ s) = ground (
  arith,
  count_if-append (λ d. d == b'<') (escape_char c) (escape_string s),
  tags-escape_string s,
)

tags-digits : (s : Bytes) → All IsDigit s → tags s ≡ 0
tags-digits [] h = refl
tags-digits (c ∷ s) h = ground (arith, h.0, tags-digits s h.1)

tags-count_line : (label : Bytes) (n : ℕ) → tags label ≡ 0 → tags (count_line label n) ≡ 0
tags-count_line label n h = ground (
  arith,
  h,
  count_if-append (λ d. d == b'<') label (decimal n ++ 10 ∷ []),
  count_if-append (λ d. d == b'<') (decimal n) (10 ∷ []),
  tags-digits (decimal n) (decimal-IsDigit n),
)

tags-concat_all : (ps : List Bytes) → tags (concat_all ps) ≡ sum_by tags ps
unfolding concat_all
tags-concat_all [] = refl
tags-concat_all (p ∷ ps) =
    omega (arith, count_if-append (λ d. d == b'<') p (concat_all ps), tags-concat_all ps)

-- The kinds exclude one another: a video that is marked as animated too is a video.
abbrev pub only_animated : Sticker → Bool
only_animated st = if st.is_video then false else st.is_animated

abbrev pub still : Sticker → Bool
still st = if st.is_video then false else if st.is_animated then false else true

count_kinds_lem :
    (sts : List Sticker) (a b c : ℕ)
    → count_kinds sts (a, b, c) ≡ (
      a + count_if still sts,
      b + count_if (λ st. st.is_video) sts,
      c + count_if only_animated sts,
    )
unfolding count_kinds
count_kinds_lem [] a b c = ground arith
count_kinds_lem (st ∷ sts) a b c = ground (
  arith,
  count_kinds_lem sts a (b + 1) c,
  count_kinds_lem sts a b (c + 1),
  count_kinds_lem sts (a + 1) b c,
)

tags-info_text : (ss : StickerSet) → tags (info_text ss) ≡ 14
unfolding info_text info_parts
tags-info_text ss =
    let counts = count_kinds ss.stickers (0, 0, 0) in
    tags-concat_all (info_parts ss)
    ∙ omega (
      arith,
      tags-escape_string ss.title,
      tags-escape_string ss.name,
      tags-escape_string (type_text ss.sticker_type),
      tags-digits (decimal (length ss.stickers)) (decimal-IsDigit (length ss.stickers)),
      tags-count_line (codes "  Static / 静态: ") counts.0 refl,
      tags-count_line (codes "  Video / 视频: ") counts.1 refl,
      tags-count_line (codes "  Animated / 动画: ") counts.2 refl,
    )

-- Whatever the title, the name and the type of a set are, the message has the 14 tags of its
-- format and no other; the numbers in it are those of the stickers that are neither video nor
-- animated, of the videos, and of the animated ones that are no videos.
pub info_text_lem :
    (ss : StickerSet)
    → (tags (info_text ss) ≡ 14)
      × (count_kinds ss.stickers (0, 0, 0) ≡ (
        count_if still ss.stickers,
        count_if (λ st. st.is_video) ss.stickers,
        count_if only_animated ss.stickers,
      ))
info_text_lem ss = (tags-info_text ss, ground (arith, count_kinds_lem ss.stickers 0 0 0))

-- The reader goes through the parts by these readings.
abbrev pub Follows : Reading → List Bytes → List Reading → Type 0
Follows r [] [] = Unit
Follows r (p ∷ ps) (r' ∷ rs) = (read r p ≡ r') × Follows r' ps rs
Follows r _ _ = ⊥

abbrev pub last_reading : Reading → List Reading → Reading
last_reading r [] = r
last_reading r (r' ∷ rs) = last_reading r' rs

read-concat_all :
    (r : Reading) (ps : List Bytes) (rs : List Reading)
    → Follows r ps rs
    → read r (concat_all ps) ≡ last_reading r rs
unfolding concat_all read
read-concat_all r [] [] h = refl
read-concat_all r [] (r' ∷ rs) h = absurd h
read-concat_all r (p ∷ ps) [] h = absurd h
read-concat_all r (p ∷ ps) (r' ∷ rs) h =
    read-append r p (concat_all ps) ∙ rw h.0 (read-concat_all r' ps rs h.1)

count_line-IsNeutral : (label : Bytes) (n : ℕ) → IsNeutral label → IsNeutral (count_line label n)
unfolding read
count_line-IsNeutral label n h opened = elim (Bool-cases (ltb 0 n)) [
  | inr nothing ↦ rw nothing refl
  | inl more ↦ rw more (
      append-IsNeutral label (decimal n ++ 10 ∷ []) h
        (append-IsNeutral (decimal n) (10 ∷ []) (decimal-IsNeutral n) (λ o. refl)) opened)
]

info_text-IsMarkup : (ss : StickerSet) → IsMarkup (info_text ss)
unfolding info_text info_parts read
info_text-IsMarkup ss =
    let counts = count_kinds ss.stickers (0, 0, 0) in
    let inside : List Bytes = codes "code" ∷ [] in
    let t : Reading = some (in_text, []) in
    let c : Reading = some (in_text, inside) in
    let line = λ (label : Bytes) (n : ℕ) (h : IsNeutral label). count_line-IsNeutral label n h [] in
    let counted : Follows t
        (count_line (codes "  Static / 静态: ") counts.0
          ∷ count_line (codes "  Video / 视频: ") counts.1
          ∷ count_line (codes "  Animated / 动画: ") counts.2
          ∷ codes "<b>Link / 链接:</b> https://t.me/addstickers/"
          ∷ escape_string ss.name
          ∷ [])
        (t ∷ t ∷ t ∷ t ∷ t ∷ []) =
      (
        line (codes "  Static / 静态: ") counts.0 (λ o. refl),
        (
          line (codes "  Video / 视频: ") counts.1 (λ o. refl),
          (
            line (codes "  Animated / 动画: ") counts.2 (λ o. refl),
            (refl, (escape_string-IsNeutral ss.name [], tt)),
          ),
        ),
      ) in
    let typed : Follows t
        (escape_string (type_text ss.sticker_type)
          ∷ (10 ∷ codes "<b>Count / 数量:</b> ")
          ∷ decimal (length ss.stickers)
          ∷ (10 ∷ [])
          ∷ [])
        (t ∷ t ∷ t ∷ t ∷ []) =
      (
        escape_string-IsNeutral (type_text ss.sticker_type) [],
        (refl, (decimal-IsNeutral (length ss.stickers) [], (refl, tt))),
      ) in
    read-concat_all t (info_parts ss) (t ∷ t ∷ c ∷ c ∷ t ∷ t ∷ t ∷ t ∷ t ∷ t ∷ t ∷ t ∷ t ∷ t ∷ []) (
      refl,
      (
        escape_string-IsNeutral ss.title [],
        (
          refl,
          (
            escape_string-IsNeutral ss.name inside,
            (refl, (typed.0, (refl, (typed.1.1.0, (refl, counted))))),
          ),
        ),
      ),
    )

-- Whatever Telegram answers on a set, it takes the text that HandleStickerInfo sends as HTML.
pub handle_sticker_info-IsMarkup :
    (sticker_set : Bytes → Option StickerSet) (st : Sticker)
    → IsMarkup (handle_sticker_info sticker_set st)
unfolding handle_sticker_info read
handle_sticker_info-IsMarkup sticker_set st = elim (Bool-cases (eq_bytes st.set_name [])) [
  | inl nowhere ↦ rw nowhere refl
  | inr somewhere ↦ elim (Option-cases (sticker_set st.set_name)) [
    | inl e ↦ rw (somewhere, e) refl
    | inr (ss, e) ↦ rw (somewhere, e) (info_text-IsMarkup ss)
  ]
]
