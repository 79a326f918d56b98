-- ===== src/Command/Replies/Buttons.antt =====
-- The buttons that the bot offers, and what they do when they are pressed.
use x_sticker_bot.Base.{
  ℕ, ◌≡◌, ◌≢◌, refl, true, false, ◌==◌, ==_iff, ◌∙◌, none, some, List, [], ◌∷◌, ◌++◌, map, Option,
  Bytes, eq_bytes, eq_bytes_iff, arith, if◌then◌else◌, Bool-cases, inl, inr, ◌⊎◌, ap, Option-cases,
}
use x_sticker_bot.Telegram.{Sticker, Message, Update}
use x_sticker_bot.Message.{Button, Keyboard, process_started, offer_whole_set_download}
use x_sticker_bot.Command.Links.{Url, get_sid_from_message}
use x_sticker_bot.Command.Messages.{
  event_download_set, event_info, record_stat, download_set, sticker_info, answer_callback,
  try_task, work, handle_callback, handle_query, handle_message, uid_from_update,
  chat_id_from_update,
}
use x_sticker_bot.Command.Replies.{
  Outgoing, Request, send_message, delete_message_text, edit_message_text, answer_callback_query,
  upload, send_progress, delete_message, send_with_keyboard_reply, sticker_requests,
}

-- The message that Telegram shows a sent one to reply to: `msg`, if the parameters name its id.
abbrev pub replied : Outgoing → Message → Option Message
replied m msg = elim m.reply_to [ none ↦ none | some id ↦ if id == msg.id then some msg else none ]

-- A press of a button on the sent message `m`, by this user, where `msg` is in the chat.
abbrev pub press : Bytes → ℕ → Outgoing → Message → Button → Update
press query_id user m msg b = record {
  message = none;
  callback_query = some (record {
    id = query_id;
    from = user;
    payload = b.callback_data;
    message = some (record { chat = m.chat_id; reply_to_message = replied m msg });
  });
}

-- The messages among the requests that have a keyboard.
abbrev pub offers : List Request → List (Outgoing × Keyboard)
offers [] = []
offers (send_message m ∷ rs) = elim m.reply_markup [
  | none ↦ offers rs
  | some kb ↦ (m, kb) ∷ offers rs
]
offers (_ ∷ rs) = offers rs

module _ (parse_url : Bytes → Option Url) where
  press_lem :
      (query_id : Bytes) (user : ℕ) (m : Outgoing) (msg : Message) (s : Sticker)
      → replied m msg ≡ some msg
      → msg.sticker ≡ some s
      → s.set_name ≢ []
      → map
          (map (λ b. handle_message parse_url (press query_id user m msg b)))
          offer_whole_set_download.1
        ≡ (some (
              answer_callback query_id
              ∷ try_task m.chat_id user
                  (record_stat user event_download_set ∷ download_set s.set_name ∷ [])
              ∷ [])
            ∷ [])
          ∷ (some (
                answer_callback query_id
                ∷ work m.chat_id (record_stat user event_info)
                ∷ work m.chat_id (sticker_info s)
                ∷ [])
              ∷ [])
          ∷ []
  unfolding offer_whole_set_download handle_message handle_query handle_callback
      get_sid_from_message uid_from_update chat_id_from_update eq_bytes
  press_lem query_id user m msg s shown e named =
      let in_set : eq_bytes s.set_name [] ≡ false = ground (arith, eq_bytes_iff s.set_name []) in
      rw (shown, e, in_set) refl

offers-append : (xs ys : List Request) → offers (xs ++ ys) ≡ offers xs ++ offers ys
offers-append [] ys = refl
offers-append (send_message m ∷ xs) ys = elim (Option-cases m.reply_markup) [
  | inl e ↦ rw e (offers-append xs ys)
  | inr (kb, e) ↦
      rw e (ap (λ (ks : List (Outgoing × Keyboard)). (m, kb) ∷ ks) (offers-append xs ys))
]
offers-append (delete_message_text chat id ∷ xs) ys = offers-append xs ys
offers-append (edit_message_text chat id text ∷ xs) ys = offers-append xs ys
offers-append (answer_callback_query id ∷ xs) ys = offers-append xs ys
offers-append (upload chat path name ∷ xs) ys = offers-append xs ys

offers-delete_message : (chat id : ℕ) → offers (delete_message chat id) ≡ []
unfolding delete_message
offers-delete_message chat id = ground arith

module _ (parse_url : Bytes → Option Url) where
  -- After a sticker of no set the bot offers no buttons. After a sticker of a set it sends one
  -- message with a keyboard, and whoever presses its first button is answered and starts a task in
  -- their name that downloads just that set; the second sends the information on the set of that
  -- sticker, which is found by the message that the one with the buttons replies to. (Ids of messages
  -- are not 0, and nothing that HandleDownload sends has a keyboard.)
  pub offered_buttons :
      (telegram : Outgoing → Option ℕ) (chat : ℕ) (msg : Message) (s : Sticker)
      (replies : List Request) (query_id : Bytes) (user : ℕ)
      → msg.sticker ≡ some s
      → msg.id ≢ 0
      → offers replies ≡ []
      → ((s.set_name ≡ []) × (offers (sticker_requests telegram chat msg s replies) ≡ []))
        ⊎ ((m : Outgoing) × (kb : Keyboard) × (offers (sticker_requests telegram chat msg s replies)
              ≡ (m, kb) ∷ [])
            × (map (map (λ b. handle_message parse_url (press query_id user m msg b))) kb
                ≡ (some (
                      answer_callback query_id
                      ∷ try_task chat user
                          (record_stat user event_download_set ∷ download_set s.set_name ∷ [])
                      ∷ [])
                    ∷ [])
                  ∷ (some (
                        answer_callback query_id
                        ∷ work chat (record_stat user event_info)
                        ∷ work chat (sticker_info s)
                        ∷ [])
                      ∷ [])
                  ∷ []))
  unfolding sticker_requests send_progress send_with_keyboard_reply
  offered_buttons telegram chat msg s replies query_id user e sent none_before =
      let id = (send_progress telegram chat process_started).0 in
      let (text, kb) = offer_whole_set_download in
      let offer = send_with_keyboard_reply chat msg.id text kb in
      let tail : List Request = if eq_bytes s.set_name [] then [] else offer in
      let shown : offers (sticker_requests telegram chat msg s replies) ≡ offers tail =
        offers-append replies (delete_message chat id ++ tail)
        ∙ rw
            (
              none_before,
              offers-append (delete_message chat id) tail,
              offers-delete_message chat id,
            )
            refl in
      elim (Bool-cases (eq_bytes s.set_name [])) [
        | inl alone ↦ inl ((eq_bytes_iff s.set_name []).0 alone, shown ∙ rw alone refl)
        | inr in_set ↦
            let named : s.set_name ≢ [] = λ h. ground (arith, eq_bytes_iff s.set_name []) in
            let m : Outgoing = record {
              chat_id = chat;
              text = text;
              html = true;
              reply_markup = some kb;
              reply_to = if msg.id == 0 then none else some msg.id;
            } in
            let found : replied m msg ≡ some msg =
              ground (arith, ==_iff msg.id 0, ==_iff msg.id msg.id) in
            inr (
              m,
              kb,
              shown ∙ rw in_set refl,
              press_lem parse_url query_id user m msg s found e named,
            )
      ]
