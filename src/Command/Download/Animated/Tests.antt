-- ===== src/Command/Download/Animated/Tests.antt =====
-- Examples for the downloads of animated stickers.
use x_sticker_bot.Base.{refl, true, false, Option, [], ◌∷◌, codes}
use x_sticker_bot.Base.FilePath.{AbsPath, path_eq, dir}
use x_sticker_bot.Telegram.{Sticker}
use x_sticker_bot.Storage.Temp.{Fs}
use x_sticker_bot.Sticker.Tgs.{Source, stream}
use x_sticker_bot.Sticker.Tgs.Tests.{writers, floats, parse}
use x_sticker_bot.Command.Services.{Services}
use x_sticker_bot.Command.Download.Tests.{
  services, fetched, fetched-Keeps, suffixed, suffixed-Beside, system,
}
use x_sticker_bot.Command.Download.Animated.{converting}

abbrev content : Fs → AbsPath → Source
content fs p = stream (codes "{}") false

abbrev video : Fs → AbsPath → Option AbsPath × Fs
video = suffixed (codes ".gif")

abbrev tgs_services : Services
tgs_services = record services {
  fetch = fetched (codes ".tgs");
  fetch-Keeps = λ fs file_id dir name seg. fetched-Keeps (codes ".tgs") fs file_id dir name;
}

abbrev fox : Sticker
fox = record { file_id = codes "fox"; set_name = []; is_video = false; is_animated = true }

abbrev work : AbsPath
work = codes "work" ∷ []

abbrev fox_tgs : AbsPath
fox_tgs = codes "sticker_ab.tgs" ∷ work

abbrev sent : Services
sent =
    converting writers floats parse system content video (λ p. refl)
      (suffixed-Beside (codes ".gif")) tgs_services
