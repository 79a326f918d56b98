-- ===== src/Message.antt =====
-- internal/message/message.go: the texts that the bot sends, as lists of code points. A text of
-- several lines is the list of its lines; the line feed between them is 10.
pub mod Markup
use x_sticker_bot.Base.{ℕ, Option, none, some, List, [], ◌∷◌, ◌++◌, Bytes, codes}
use x_sticker_bot.Base.Decimal.{decimal}
use x_sticker_bot.Base.Html.{escape_string}

abbrev pub cb_dn_whole : Bytes
cb_dn_whole = codes "dn_whole"

abbrev pub cb_sticker_info : Bytes
cb_sticker_info = codes "sticker_info"

-- An InlineKeyboardButton; a keyboard is the list of its rows.
pub record Button : Type 0 where
  pub text : Bytes
  pub callback_data : Bytes

abbrev pub Keyboard : Type 0
Keyboard = List (List Button)

unfoldable pub joined : List Bytes → Bytes
joined [] = []
joined (l ∷ []) = l
joined (l ∷ m ∷ ls) = l ++ (10 ∷ joined (m ∷ ls))

unfoldable pub start_message : Bytes
unfolding joined
start_message = joined (
    codes "<b>Telegram Sticker Downloader</b>"
    ∷ codes ""
    ∷ codes "<b>Usage:</b>"
    ∷ codes "• Send a <b>sticker</b> → download as PNG/GIF"
    ∷ codes "• Send a <b>sticker set link</b> → download the whole set"
    ∷ codes "• Send a <b>GIF</b> → convert and download"
    ∷ codes ""
    ∷ codes "<b>FAQ:</b>"
    ∷ codes "• Static stickers export as PNG, animated/video as GIF"
    ∷ codes "• Whole set downloads are sent as ZIP"
    ∷ codes "• Use /info to view sticker set details"
    ∷ codes ""
    ∷ codes "<b>使用方法:</b>"
    ∷ codes "• 发送<b>贴纸</b> → 自动下载 PNG/GIF"
    ∷ codes "• 发送<b>贴纸包链接</b> → 下载整个贴纸包"
    ∷ codes "• 发送<b>GIF</b> → 转换并下载"
    ∷ codes ""
    ∷ codes "<b>常见问题:</b>"
    ∷ codes "• 静态贴纸导出为 PNG，动态/视频贴纸导出为 GIF"
    ∷ codes "• 整包下载以 ZIP 格式发送"
    ∷ codes "• 使用 /info 查看贴纸包详情"
    ∷ [])

unfoldable pub about_message : Bytes → Bytes
unfolding joined
about_message version = joined (
    codes "<b>Telegram Sticker Downloader</b>"
    ∷ codes ""
    ∷ codes "A lightweight bot for downloading Telegram stickers as PNG/GIF files."
    ∷ codes "一个轻量的 Telegram 贴纸下载机器人。"
    ∷ codes ""
    ∷ codes "<b>Features / 功能:</b>"
    ∷ codes "• Download single stickers as PNG or GIF / 单张贴纸下载为 PNG 或 GIF"
    ∷ codes "• Download entire sticker sets as ZIP / 整包下载为 ZIP"
    ∷ codes "• View sticker set details / 查看贴纸包详情"
    ∷ codes "• GIF conversion / GIF 格式转换"
    ∷ codes ""
    ∷ codes "<b>Privacy / 隐私:</b>"
    ∷ codes
        "This bot collects anonymized usage statistics only (SHA256-hashed user IDs, no raw IDs stored). Sticker files are processed temporarily and deleted immediately."
    ∷ codes "本 Bot 仅收集匿名使用统计（SHA256 哈希用户 ID，不存储原始 ID）。贴纸文件仅临时处理后立即删除。"
    ∷ codes ""
    ∷ (codes "<b>Version:</b> <code>" ++ (version ++ codes "</code>"))
    ∷ codes "<b>License:</b> MIT"
    ∷ codes "<b>GitHub:</b> https://github.com/xjoker/x_sticker_bot"
    ∷ codes ""
    ∷ codes "/start"
    ∷ [])

abbrev pub offer_text : Bytes
offer_text = codes "Need more? / 需要更多操作吗?"

unfoldable pub offer_whole_set_download : Bytes × Keyboard
offer_whole_set_download = (
  offer_text,
  (record { text = codes "Download whole set / 下载整个贴纸包"; callback_data = cb_dn_whole } ∷ [])
      ∷ (record { text = codes "Set info / 贴纸包详情"; callback_data = cb_sticker_info } ∷ [])
      ∷ [],
)

unfoldable pub process_started : Bytes
process_started = codes "Processing, please wait... / 处理中，请稍候..."

abbrev pub fraction : ℕ → ℕ → Bytes
fraction n total = decimal n ++ (b'/' ∷ decimal total)

unfoldable pub download_progress : ℕ → ℕ → Bytes
unfolding joined
download_progress finished total = joined (
    (codes "Downloading stickers... " ++ fraction finished total)
    ∷ (codes "下载贴纸中... " ++ fraction finished total)
    ∷ [])

unfoldable pub partial_download : ℕ → ℕ → Bytes
unfolding joined
partial_download succeeded total = joined (
    (codes "Downloaded "
      ++ (fraction succeeded total ++ codes " stickers. Some failed, sending available ones."))
    ∷ (codes "已下载 " ++ (fraction succeeded total ++ codes " 张贴纸，部分失败，发送已成功的文件。"))
    ∷ [])

-- The error's text is `none` for a nil error.
unfoldable pub fatal_error : Option Bytes → Bytes
unfolding escape_string joined
fatal_error err =
    let err_msg : Bytes = elim err [ none ↦ [] | some e ↦ escape_string e ] in
    joined (
      codes "<b>Error, please try again. / 处理失败，请重试。</b> /start"
      ∷ []
      ∷ (codes "<code>" ++ (err_msg ++ codes "</code>"))
      ∷ [])

unfoldable pub document_upload_failed : Bytes
unfolding joined
document_upload_failed =
    joined (codes "Failed to send the file. Please try again. /start" ∷ codes "文件发送失败，请重试。" ∷ [])

unfoldable pub server_busy : Bytes
unfolding joined
server_busy =
    joined
      (codes "Server is at full capacity, please try again later." ∷ codes "服务器满负荷运行中，请稍后再试。" ∷ [])

unfoldable pub user_busy : Bytes
unfolding joined
user_busy =
    joined
      (codes "You already have a task in progress, please wait." ∷ codes "您已有任务正在处理中，请等待完成。" ∷ [])

unfoldable pub send_sticker_hint : Bytes
unfolding joined
send_sticker_hint = joined (
    codes "Send a sticker or sticker set link to download."
    ∷ codes "请发送贴纸或贴纸包链接来下载。"
    ∷ codes "/start"
    ∷ [])
