-- ===== src/Command/Info/Tests.antt =====
-- Examples for the messages of internal/command/common.go.
use x_sticker_bot.Base.{true, false, List, [], ◌∷◌, codes}
use x_sticker_bot.Telegram.{Sticker}
use x_sticker_bot.Command.Info.{StickerSet}

abbrev cats : List Sticker
cats =
    record { file_id = codes "a"; set_name = codes "cats"; is_video = false; is_animated = false }
    ∷ record { file_id = codes "b"; set_name = codes "cats"; is_video = true; is_animated = true }
    ∷ []

abbrev tricky : StickerSet
tricky = record {
  title = codes "<a href=x>cats</a>";
  name = codes "cats";
  sticker_type = codes "regular";
  stickers = cats;
}
