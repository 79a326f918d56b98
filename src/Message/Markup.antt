-- ===== src/Message/Markup.antt =====
-- The markup of the messages.
use x_sticker_bot.Base.{ℕ, refl, Option, none, some, List, [], ◌∷◌, ◌++◌, Bytes, codes, All, ◌∙◌}
use x_sticker_bot.Base.Decimal.{decimal}
use x_sticker_bot.Base.Html.{
  escape_string, read, in_text, IsNeutral, IsMarkup, IsPlain, append-IsNeutral,
  escape_string-IsNeutral, plain-IsNeutral, decimal-IsNeutral, read-append,
}
use x_sticker_bot.Message.{
  joined, start_message, about_message, offer_whole_set_download, process_started, fraction,
  download_progress, partial_download, fatal_error, document_upload_failed, server_busy, user_busy,
  send_sticker_hint,
}

pub joined-IsNeutral : (ls : List Bytes) → All IsNeutral ls → IsNeutral (joined ls)
unfolding joined read
joined-IsNeutral [] h opened = refl
joined-IsNeutral (l ∷ []) h opened = h.0 opened
joined-IsNeutral (l ∷ m ∷ ls) h opened =
    append-IsNeutral l (10 ∷ joined (m ∷ ls)) h.0 (joined-IsNeutral (m ∷ ls) h.1) opened

-- An element with a neutral text in it.
pub code-IsNeutral :
    (s : Bytes) → IsNeutral s → IsNeutral (codes "<code>" ++ (s ++ codes "</code>"))
unfolding read
code-IsNeutral s h opened =
    rw
      (
        read-append (some (in_text, codes "code" ∷ opened)) s (codes "</code>"),
        h (codes "code" ∷ opened),
      )
      refl

fraction-IsNeutral : (n total : ℕ) → IsNeutral (fraction n total)
unfolding read
fraction-IsNeutral n total =
    append-IsNeutral (decimal n) (b'/' ∷ decimal total) (decimal-IsNeutral n)
      (λ opened. decimal-IsNeutral total opened)

start_message-IsNeutral : IsNeutral start_message
unfolding start_message read
start_message-IsNeutral opened = refl

-- The error's text adds no markup.
pub fatal_error-IsNeutral : (err : Option Bytes) → IsNeutral (fatal_error err)
unfolding fatal_error read
fatal_error-IsNeutral none opened = refl
fatal_error-IsNeutral (some e) opened =
    let inside : List Bytes = codes "code" ∷ opened in
    read-append (some (in_text, inside)) (escape_string e) (codes "</code>")
    ∙ rw (escape_string-IsNeutral e inside) refl

about_message-IsNeutral : (version : Bytes) → IsPlain version → IsNeutral (about_message version)
unfolding about_message read
about_message-IsNeutral version h opened =
    let inside : List Bytes = codes "code" ∷ opened in
    read-append (some (in_text, inside)) (version ++ codes "</code>") _
    ∙ rw
        (
          read-append (some (in_text, inside)) version (codes "</code>"),
          plain-IsNeutral version h inside,
        )
        refl

download_progress-IsNeutral : (n total : ℕ) → IsNeutral (download_progress n total)
unfolding download_progress read
download_progress-IsNeutral n total =
    let f = fraction-IsNeutral n total in
    let ls : List Bytes =
      (codes "Downloading stickers... " ++ fraction n total)
      ∷ (codes "下载贴纸中... " ++ fraction n total)
      ∷ [] in
    joined-IsNeutral ls ((λ opened. f opened), ((λ opened. f opened), tt))

partial_download-IsNeutral : (n total : ℕ) → IsNeutral (partial_download n total)
unfolding partial_download read
partial_download-IsNeutral n total =
    let f = fraction n total in
    let rest : Bytes = codes " stickers. Some failed, sending available ones." in
    let rest' : Bytes = codes " 张贴纸，部分失败，发送已成功的文件。" in
    let ls : List Bytes =
      (codes "Downloaded " ++ (f ++ rest)) ∷ (codes "已下载 " ++ (f ++ rest')) ∷ [] in
    joined-IsNeutral ls (
      (λ opened. append-IsNeutral f rest (fraction-IsNeutral n total) (λ o. refl) opened),
      ((λ opened. append-IsNeutral f rest' (fraction-IsNeutral n total) (λ o. refl) opened), tt),
    )

-- Telegram takes every text of the package as HTML: tags are those it knows and are closed in order,
-- and no other character begins one; whatever the numbers are and whatever the text of an error
-- contains. (The version in AboutMessage has no markup in it.)
pub messages-IsMarkup :
    (version : Bytes) (err : Option Bytes) (n total : ℕ)
    → IsPlain version
    → IsMarkup start_message
      × IsMarkup (about_message version)
      × IsMarkup offer_whole_set_download.0
      × IsMarkup process_started
      × IsMarkup (download_progress n total)
      × IsMarkup (partial_download n total)
      × IsMarkup (fatal_error err)
      × IsMarkup document_upload_failed
      × IsMarkup server_busy
      × IsMarkup user_busy
      × IsMarkup send_sticker_hint
unfolding offer_whole_set_download process_started document_upload_failed server_busy user_busy
    send_sticker_hint read
messages-IsMarkup version err n total h = (
  start_message-IsNeutral [],
  about_message-IsNeutral version h [],
  refl,
  refl,
  download_progress-IsNeutral n total [],
  partial_download-IsNeutral n total [],
  fatal_error-IsNeutral err [],
  refl,
  refl,
  refl,
  refl,
)
