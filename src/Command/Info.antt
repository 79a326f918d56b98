-- ===== src/Command/Info.antt =====
-- HandleStickerInfo of internal/command/common.go. Texts are lists of code points.
pub mod Markup
mod Tests
use x_sticker_bot.Base.{
  ℕ, suc, ◌+◌, Bool, true, false, Option, none, some, List, [], ◌∷◌, ◌++◌, if◌then◌else◌, ltb, ◌==◌,
  length, Bytes, codes, eq_bytes,
}
use x_sticker_bot.Base.Decimal.{decimal}
use x_sticker_bot.Base.Html.{escape_string}
use x_sticker_bot.Telegram.{Sticker}

-- The fields of a sticker set that are read.
pub record StickerSet : Type 0 where
  pub title : Bytes
  pub name : Bytes
  pub sticker_type : Bytes
  pub stickers : List Sticker

unfoldable pub type_text : Bytes → Bytes
type_text t =
    if eq_bytes t (codes "regular")
    then codes "Regular / 普通贴纸"
    else if eq_bytes t (codes "mask")
    then codes "Mask / 面具贴纸"
    else if eq_bytes t (codes "custom_emoji")
    then codes "Custom Emoji / 自定义 Emoji"
    else t

-- The loop over the stickers: how many are static, videos and animated.
unfoldable pub count_kinds : List Sticker → ℕ × ℕ × ℕ → ℕ × ℕ × ℕ
count_kinds [] counts = counts
count_kinds (st ∷ sts) (n_static, n_video, n_animated) = count_kinds sts (
    if st.is_video
    then (n_static, n_video + 1, n_animated)
    else if st.is_animated
    then (n_static, n_video, n_animated + 1)
    else (n_static + 1, n_video, n_animated))

-- The program ends the line with a line feed, which is 10.
abbrev pub count_line : Bytes → ℕ → Bytes
count_line label n = if ltb 0 n then label ++ (decimal n ++ 10 ∷ []) else []

unfoldable pub concat_all : List Bytes → Bytes
concat_all [] = []
concat_all (p ∷ ps) = p ++ concat_all ps

-- The verbs of the format and the text between them.
unfoldable pub info_parts : StickerSet → List Bytes
unfolding escape_string type_text count_kinds
info_parts ss =
    let (n_static, n_video, n_animated) = count_kinds ss.stickers (0, 0, 0) in
    (codes "<b>Sticker Set Info / 贴纸包详情</b>" ++ (10 ∷ 10 ∷ codes "<b>Title / 标题:</b> "))
    ∷ escape_string ss.title
    ∷ (10 ∷ codes "<b>ID:</b> <code>")
    ∷ escape_string ss.name
    ∷ (codes "</code>" ++ (10 ∷ codes "<b>Type / 类型:</b> "))
    ∷ escape_string (type_text ss.sticker_type)
    ∷ (10 ∷ codes "<b>Count / 数量:</b> ")
    ∷ decimal (length ss.stickers)
    ∷ (10 ∷ [])
    ∷ count_line (codes "  Static / 静态: ") n_static
    ∷ count_line (codes "  Video / 视频: ") n_video
    ∷ count_line (codes "  Animated / 动画: ") n_animated
    ∷ codes "<b>Link / 链接:</b> https://t.me/addstickers/"
    ∷ escape_string ss.name
    ∷ []

unfoldable pub info_text : StickerSet → Bytes
unfolding concat_all info_parts
info_text ss = concat_all (info_parts ss)

-- What the user is sent; `sticker_set` is GetStickerSet.
unfoldable pub handle_sticker_info : (Bytes → Option StickerSet) → Sticker → Bytes
unfolding info_text
handle_sticker_info sticker_set st =
    if eq_bytes st.set_name []
    then codes "This sticker does not belong to any set." ++ (10 ∷ codes "该贴纸不属于任何贴纸包。")
    else elim (sticker_set st.set_name) [
      | none ↦ codes "Failed to get sticker set info." ++ (10 ∷ codes "无法获取贴纸包信息。")
      | some ss ↦ info_text ss
    ]
