-- ===== src/Command/Messages/Routing.antt =====
-- What HandleMessage and CmdGetFID do with an update.
use x_sticker_bot.Base.{
  ℕ, ◌≤◌, ◌≡◌, ◌≢◌, refl, ap, subst, Bool, true, false, ◌||◌, Option, some, List, [], ◌∷◌, arith,
  ◌==◌, ==_iff, Bytes, eq_bytes, eq_bytes_iff, count_if, All, is_some, Option-cases, Bool-cases,
  inl, inr, ◌⊎◌,
}
use x_sticker_bot.Telegram.{Sticker, Message, CallbackQuery, Update}
use x_sticker_bot.Command.Links.{Url, find_tg_link, get_sid_from_message}
use x_sticker_bot.Command.Links.Names.{KeepsPath, find_tg_link-IsSetName}
use x_sticker_bot.Command.Messages.{
  Work, download_single, download_set, animation_download, Step, send_no_media, send_file_id,
  try_task, work, uid_from_update, chat_id_from_update, handle_callback, handle_query, sticker_task,
  handle_text, handle_user_message, handle_message, media_of, cmd_get_fid,
}

-- A set that is downloaded has a name.
abbrev pub Sound : Work → Type 0
Sound (download_set sid) = sid ≢ []
Sound _ = Unit

-- No download.
abbrev pub Light : Work → Type 0
Light (download_set sid) = ⊥
Light (download_single s) = ⊥
Light (animation_download f) = ⊥
Light _ = Unit

-- Downloads run in tasks of this user alone.
abbrev pub Guarded : ℕ → Step → Type 0
Guarded uid (try_task chat v ws) = (v ≡ uid) × All Sound ws
Guarded uid (work chat w) = Light w
Guarded uid _ = Unit

abbrev pub is_task : Step → Bool
is_task (try_task chat uid ws) = true
is_task _ = false

-- What each handler makes of an update.
abbrev Handled : ℕ → List Step → Type 0
Handled uid steps = All (Guarded uid) steps × (count_if is_task steps ≤ 1)

sticker_task-Sound : (uid : ℕ) (msg : Message) (s : Sticker) → All Sound (sticker_task uid msg s)
sticker_task-Sound uid msg s = ground arith

module _ (parse_url : Bytes → Option Url) where
  handle_callback-Handled :
      (chat uid : ℕ) (q : CallbackQuery) (origin : Message)
      → Handled uid (handle_callback parse_url chat uid q origin)
  unfolding handle_callback
  handle_callback-Handled chat uid q origin =
      ground (arith, eq_bytes_iff (get_sid_from_message parse_url origin) [])

  handle_query-Handled :
      (chat uid : ℕ) (q : CallbackQuery) → Handled uid (handle_query parse_url chat uid q)
  unfolding handle_query
  handle_query-Handled chat uid q = elim (Option-cases q.message) [
    | inl gone ↦ rw (gone, handle_query) ((tt, (tt, tt)), omega arith)
    | inr (m, e) ↦ elim (Option-cases m.reply_to_message) [
      | inl gone ↦ rw (e, gone, handle_query) ((tt, (tt, tt)), omega arith)
      | inr (origin, f) ↦
          let (safe, few) = handle_callback-Handled chat uid q origin in
          rw (e, f, handle_query) ((tt, safe), omega (arith, few))
    ]
  ]

  handle_text-Handled :
      (chat uid : ℕ) (msg : Message)
      → KeepsPath parse_url
      → Handled uid (handle_text parse_url chat uid msg)
  unfolding handle_text
  handle_text-Handled chat uid msg keeps = elim (Bool-cases (eq_bytes msg.text [])) [
    | inl empty ↦ rw (empty, handle_text) ((tt, tt), omega arith)
    | inr full ↦ elim (Option-cases (find_tg_link parse_url msg.text)) [
      | inl plain ↦ rw (full, plain, handle_text) ((tt, tt), omega arith)
      | inr (link, e) ↦
          let good = find_tg_link-IsSetName parse_url msg.text link keeps e in
          rw (full, e, handle_text) (((refl, (tt, (good.0, tt))), tt), omega arith)
    ]
  ]

  handle_user_message-Handled :
      (chat uid : ℕ) (msg : Message)
      → KeepsPath parse_url
      → Handled uid (handle_user_message parse_url chat uid msg)
  unfolding handle_user_message
  handle_user_message-Handled chat uid msg keeps = elim (Option-cases msg.sticker) [
    | inr (s, e) ↦
        rw (e, handle_user_message) (((refl, sticker_task-Sound uid msg s), tt), omega arith)
    | inl none_sent ↦ elim (Option-cases msg.animation) [
      | inr (f, e) ↦ rw (none_sent, e, handle_user_message) (((refl, (tt, tt)), tt), omega arith)
      | inl still ↦ elim (Bool-cases (is_some msg.photo || is_some msg.document)) [
        | inl media ↦ ground arith
        | inr text ↦ ground (arith, handle_text-Handled chat uid msg keeps)
      ]
    ]
  ]

  -- With a url.Parse that keeps the spelling of plain paths: whatever update HandleMessage gets, it
  -- starts at most one task, in the name of the update's sender; it downloads nothing outside a
  -- task; and a set that it downloads has a name that is not empty.
  pub handle_message_lem :
      (u : Update) (steps : List Step)
      → KeepsPath parse_url
      → handle_message parse_url u ≡ some steps
      → (uid : ℕ) × (uid_from_update u ≡ some uid)
        × All (Guarded uid) steps
        × (count_if is_task steps ≤ 1)
  unfolding handle_message
  handle_message_lem u steps keeps h = elim (Option-cases (uid_from_update u)) [
    | inl panic ↦ absurd (ground arith)
    | inr (uid, e) ↦
        let chat = chat_id_from_update u in
        elim (Option-cases u.callback_query) [
          | inr (q, f) ↦
              let same : handle_query parse_url chat uid q ≡ steps = ground arith in
              let (safe, few) = handle_query-Handled chat uid q in
              (
                uid,
                e,
                subst (All (Guarded uid)) same safe,
                omega (arith, ap (count_if is_task) same),
              )
          | inl no_query ↦ elim (Option-cases u.message) [
            | inl no_message ↦
                let same : [] ≡ steps = ground arith in
                (
                  uid,
                  e,
                  subst (All (Guarded uid)) same tt,
                  omega (arith, ap (count_if is_task) same),
                )
            | inr (msg, f) ↦
                let same : handle_user_message parse_url chat uid msg ≡ steps = ground arith in
                let (safe, few) = handle_user_message-Handled chat uid msg keeps in
                (
                  uid,
                  e,
                  subst (All (Guarded uid)) same safe,
                  omega (arith, ap (count_if is_task) same),
                )
          ]
        ]
  ]

-- Only the administrator gets an answer from CmdGetFID, in the chat of the command and one only.
pub cmd_get_fid_lem :
    (admin_uid : ℕ) (u : Update) (steps : List Step)
    → cmd_get_fid admin_uid u ≡ some steps
    → (steps ≡ [])
      ⊎ ((msg : Message) × (u.message ≡ some msg)
          × (msg.from ≡ some admin_uid)
          × ((steps ≡ send_no_media msg.chat ∷ [])
              ⊎ ((file_id : Bytes) × (steps ≡ send_file_id msg.chat file_id ∷ []))))
unfolding cmd_get_fid
cmd_get_fid_lem admin_uid u steps h = elim (Option-cases u.message) [
  | inl no_message ↦ inl (ground arith)
  | inr (msg, e) ↦ elim (Option-cases msg.from) [
    | inl panic ↦ absurd (ground arith)
    | inr (uid, f) ↦ elim (Bool-cases (uid == admin_uid)) [
      | inr other ↦ inl (ground arith)
      | inl admin ↦ elim (Option-cases (media_of msg)) [
        | inl nothing ↦ inr (msg, e, ground (arith, ==_iff uid admin_uid), inl (ground arith))
        | inr (file_id, g) ↦
            inr (msg, e, ground (arith, ==_iff uid admin_uid), inr (file_id, ground arith))
      ]
    ]
  ]
]
