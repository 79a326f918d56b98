-- ===== src/Bot/Redact.antt =====
-- logTelegramError of internal/bot/polling.go: the bot token is cut out of what is logged.
use x_sticker_bot.Base.{
  ℕ, zero, suc, ◌-◌, ◌≡◌, ◌≢◌, refl, Bool, true, false, [], ◌∷◌, ◌++◌, arith, if◌then◌else◌, length,
  Bytes, codes, has_prefix, contains, All, ◌⊎◌, inl, inr, Option, none, some, Bool-cases,
}

abbrev pub stars : Bytes
stars = b'*' ∷ b'*' ∷ b'*' ∷ []

-- strings.ReplaceAll(s, old, "***"), for an `old` that is not empty; `skip` bytes of a match are
-- still to be passed over.
unfoldable pub replace_from : Bytes → Bytes → ℕ → Bytes
replace_from old [] skip = []
replace_from old (c ∷ s) (suc skip) = replace_from old s skip
replace_from old (c ∷ s) zero =
    let matched = stars ++ replace_from old s (length old - 1) in
    let plain = c ∷ replace_from old s 0 in if has_prefix (c ∷ s) old then matched else plain

unfoldable pub replace_all : Bytes → Bytes → Bytes
unfolding replace_from
replace_all s old = replace_from old s 0

-- What is logged for an error with this text; a cancelled context is not logged.
unfoldable pub log_telegram_error : Bytes → Bytes → Bool → Option Bytes
log_telegram_error token text cancelled =
    let message = replace_all text token in
    if cancelled
    then none
    else if contains message (codes "error decode response body")
    then some (codes "invalid Telegram API response")
    else some message

abbrev pub NoStar : Bytes → Type 0
NoStar = All (λ c. c ≢ b'*')

-- What is found at the head of the redacted text stood at the head of the text.
prefix-replace :
    (old : Bytes) (s p : Bytes)
    → NoStar p
    → has_prefix (replace_from old s 0) p ≡ true
    → has_prefix s p ≡ true
unfolding replace_from has_prefix
prefix-replace old s [] n h = has_prefix_nil s
  where
    has_prefix_nil : (s : Bytes) → has_prefix s [] ≡ true
    has_prefix_nil [] = refl
    has_prefix_nil (c ∷ s) = refl
prefix-replace old [] (d ∷ p) n h = h
prefix-replace old (c ∷ s) (d ∷ p) n h = ground (arith, prefix-replace old s p n.1, n.0)

contains-cons :
    (c : ℕ) (r old : Bytes)
    → has_prefix (c ∷ r) old ≡ false
    → contains r old ≡ false
    → contains (c ∷ r) old ≡ false
unfolding contains
contains-cons c r old h k = rw (h, k)

contains-stars :
    (d : ℕ) (ds r : Bytes)
    → d ≢ b'*'
    → contains r (d ∷ ds) ≡ false
    → contains (stars ++ r) (d ∷ ds) ≡ false
unfolding contains has_prefix
contains-stars d ds r ne k = ground arith

replace-lacks :
    (d : ℕ) (ds : Bytes) (s : Bytes) (skip : ℕ)
    → NoStar (d ∷ ds)
    → contains (replace_from (d ∷ ds) s skip) (d ∷ ds) ≡ false
unfolding replace_from
replace-lacks d ds [] skip n = unfold contains has_prefix in refl
replace-lacks d ds (c ∷ s) (suc skip) n = replace-lacks d ds s skip n
replace-lacks d ds (c ∷ s) zero n = elim (Bool-cases (has_prefix (c ∷ s) (d ∷ ds))) [
  | inl matched ↦
      rw (matched, replace_from)
        (contains-stars d ds _ n.0 (replace-lacks d ds s (length (d ∷ ds) - 1) n))
  | inr plain ↦
      rw (plain, replace_from)
        (contains-cons c (replace_from (d ∷ ds) s 0) (d ∷ ds) (unmatched plain)
          (replace-lacks d ds s 0 n))
]
  where
    unmatched :
        has_prefix (c ∷ s) (d ∷ ds) ≡ false
        → has_prefix (c ∷ replace_from (d ∷ ds) s 0) (d ∷ ds) ≡ false
    unmatched plain = unfold has_prefix in ground (arith, prefix-replace (d ∷ ds) s ds n.1)

-- What is logged for a Telegram error is the fixed text or does not contain the token, if the
-- token is not empty and has no `*` in it.
pub log_telegram_error_lem :
    (token text : Bytes) (cancelled : Bool) (line : Bytes)
    → token ≢ []
    → NoStar token
    → log_telegram_error token text cancelled ≡ some line
    → (line ≡ codes "invalid Telegram API response") ⊎ (contains line token ≡ false)
unfolding log_telegram_error replace_all
log_telegram_error_lem [] text cancelled line ne n h = absurd (ne refl)
log_telegram_error_lem (d ∷ ds) text cancelled line ne n h =
    ground (arith, replace-lacks d ds text 0 n)
