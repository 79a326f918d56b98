-- ===== src/Sticker/Convert/Frames.antt =====
-- What SmartConvert makes of the output of identify.
use x_sticker_bot.Base.{
  ℕ, zero, suc, ◌-◌, ◌^◌, ◌≤◌, ◌≡◌, ◌≢◌, refl, ap, subst, ◌∙◌, sym, Bool, true, false, some, [],
  ◌∷◌, ◌++◌, arith, if◌then◌else◌, ltb, ◌==◌, Bytes, codes, eq_bytes, eq_bytes_iff, All, All-append,
  All-reverse, length, take,
}
use mathlib.Core.List.{reverse, reverse-reverse}
use x_sticker_bot.Base.Int.{pos, atoi, unsigned, all_digits-All}
use x_sticker_bot.Base.Decimal.{
  value, decimal, IsDigit, decimal-IsDigit, decimal-Leads, decimal-ne-nil, decimal-injective,
}
use x_sticker_bot.Sticker.Programs.{Tools, Binaries}
use x_sticker_bot.Sticker.Convert.{
  trim_left, trim_space, one_frame, many_frames, frames_of, smart_convert, to_webp_static,
  to_webm_video,
}

trim_left-digits : (s : Bytes) → All IsDigit s → trim_left s ≡ s
unfolding trim_left
trim_left-digits [] h = refl
trim_left-digits (c ∷ s) h = ground (arith, h.0)

trim_space-digits : (s : Bytes) → All IsDigit s → trim_space s ≡ s
unfolding trim_space
trim_space-digits s h =
    rw (trim_left-digits s h, trim_left-digits (reverse s) (All-reverse IsDigit s h))
      (reverse-reverse s)

atoi-digits :
    (d : ℕ) (s : Bytes)
    → b'1' ≤ d
    → d ≤ b'9'
    → All IsDigit s
    → value 0 (d ∷ s) ≤ 2 ^ 63 - 1
    → atoi (d ∷ s) ≡ some (pos (value 0 (d ∷ s)))
unfolding atoi unsigned eq_bytes
atoi-digits d s low high ds small =
    ground (arith, all_digits-All (d ∷ s) (((omega arith), high), ds))

-- A number of two digits or more, of which the first five count.
many_lem :
    (text kept : Bytes) (v : ℕ)
    → All IsDigit text
    → (if ltb 5 (length text) then take 3 text else text) ≡ kept
    → atoi kept ≡ some (pos v)
    → 1 ≤ v
    → frames_of text ≡ (if ltb 1 v then many_frames else one_frame)
unfolding frames_of
many_lem text kept v ds cut e two = rw (frames_of, trim_space-digits text ds, cut, e) (ground arith)

frames_of-digits :
    (d : ℕ) (s : Bytes)
    → b'1' ≤ d
    → d ≤ b'9'
    → All IsDigit s
    → frames_of (d ∷ s) ≡ (if eq_bytes (d ∷ s) (b'1' ∷ []) then one_frame else many_frames)
unfolding eq_bytes
frames_of-digits d [] low high ds =
    many_lem (d ∷ []) (d ∷ []) (value 0 (d ∷ [])) (ground arith) refl
      (atoi-digits d [] low high tt (ground arith)) (ground arith)
    ∙ ground arith
frames_of-digits d (a ∷ []) low high ds =
    let s = a ∷ [] in
    many_lem (d ∷ s) (d ∷ s) (value 0 (d ∷ s)) (ground arith) refl
      (atoi-digits d s low high ds (ground arith)) (ground arith)
    ∙ ground arith
frames_of-digits d (a ∷ b ∷ []) low high ds =
    let s = a ∷ b ∷ [] in
    many_lem (d ∷ s) (d ∷ s) (value 0 (d ∷ s)) (ground arith) refl
      (atoi-digits d s low high ds (ground arith)) (ground arith)
    ∙ ground arith
frames_of-digits d (a ∷ b ∷ c ∷ []) low high ds =
    let s = a ∷ b ∷ c ∷ [] in
    many_lem (d ∷ s) (d ∷ s) (value 0 (d ∷ s)) (ground arith) refl
      (atoi-digits d s low high ds (ground arith)) (ground arith)
    ∙ ground arith
frames_of-digits d (a ∷ b ∷ c ∷ e ∷ []) low high ds =
    let s = a ∷ b ∷ c ∷ e ∷ [] in
    many_lem (d ∷ s) (d ∷ s) (value 0 (d ∷ s)) (ground arith) refl
      (atoi-digits d s low high ds (ground arith)) (ground arith)
    ∙ ground arith
frames_of-digits d (a ∷ b ∷ c ∷ e ∷ f ∷ rest) low high ds =
    let s = a ∷ b ∷ [] in
    many_lem (d ∷ a ∷ b ∷ c ∷ e ∷ f ∷ rest) (d ∷ s) (value 0 (d ∷ s)) (((omega arith), high), ds)
      (ground arith) (atoi-digits d s low high (ground arith) (ground arith)) (ground arith)
    ∙ ground arith

-- What `identify -format %n` prints for an image of `n` frames: the number once for each frame.
unfoldable pub copies : ℕ → Bytes → Bytes
copies zero s = []
copies (suc n) s = s ++ copies n s

copies-IsDigit : (k : ℕ) (s : Bytes) → All IsDigit s → All IsDigit (copies k s)
unfolding copies
copies-IsDigit zero s h = tt
copies-IsDigit (suc k) s h = All-append IsDigit s (copies k s) h (copies-IsDigit k s h)

-- Only the number 1 is printed so that the output begins with its digit and ends there.
append_one : (s t : Bytes) → s ≢ [] → s ++ t ≡ b'1' ∷ [] → s ≡ b'1' ∷ []
append_one [] t ne e = absurd (ne refl)
append_one (c ∷ []) t ne e = ground arith
append_one (c ∷ d ∷ s) t ne e = ground arith

single_lem : (d : ℕ) (s : Bytes) → d ∷ s ≢ b'1' ∷ [] → eq_bytes (d ∷ s) (b'1' ∷ []) ≡ false
single_lem d s h = ground (arith, eq_bytes_iff (d ∷ s) (b'1' ∷ []), h)

decimal_one : decimal 1 ≡ b'1' ∷ []
unfolding decimal
decimal_one = refl

frames_of-one : frames_of (copies 1 (decimal 1)) ≡ one_frame
unfolding copies frames_of decimal eq_bytes
frames_of-one = refl

frames_of-more : (n : ℕ) → 2 ≤ n → frames_of (copies n (decimal n)) ≡ many_frames
unfolding copies
frames_of-more zero two = absurd (omega arith)
frames_of-more (suc n) two =
    let text = decimal (suc n) in
    let (d, s, e, low, high) = decimal-Leads (suc n) (omega arith) in
    let rest = copies n text in
    let whole : text ++ rest ≡ d ∷ (s ++ rest) = ap (λ x. x ++ rest) e in
    let all : All IsDigit (d ∷ (s ++ rest)) =
      subst (All IsDigit) whole (copies-IsDigit (suc n) text (decimal-IsDigit (suc n))) in
    let other : text ++ rest ≢ b'1' ∷ [] = λ h. ground (
      arith,
      decimal-injective (suc n) 1
          (append_one text rest (decimal-ne-nil (suc n)) h ∙ sym decimal_one),
    ) in
    ap frames_of whole
    ∙ frames_of-digits d (s ++ rest) low high all.1
    ∙ rw (single_lem d (s ++ rest) (λ h. other (whole ∙ h))) refl

module _ (t : Tools) (b : Binaries) where
  -- When identify prints the number of frames once for each frame, SmartConvert makes a static WEBP
  -- of an image of one frame and a WEBM of an image of more, however many there are.
  pub smart_convert-frames :
      (fuel n : ℕ) (w w' : t.World) (f : Bytes) (is_custom_emoji : Bool)
      → 1 ≤ n
      → t.run w b.identify_bin (b.identify_args ++ (codes "-format" ∷ codes "%n" ∷ f ∷ []))
        ≡ (true, copies n (decimal n), w')
      → smart_convert t b fuel w f is_custom_emoji ≡ (
          if n == 1
          then to_webp_static t b w' f is_custom_emoji
          else to_webm_video t b fuel w' f is_custom_emoji)
  unfolding smart_convert
  smart_convert-frames fuel zero w w' f is_custom_emoji some_frame e = absurd (omega arith)
  smart_convert-frames fuel (suc zero) w w' f is_custom_emoji some_frame e =
      rw (smart_convert, e, frames_of-one) (ap (λ r. to_webp_static t b r.2 f is_custom_emoji) e)
  smart_convert-frames fuel (suc (suc n)) w w' f is_custom_emoji some_frame e =
      let other : (suc (suc n) == 1) ≡ false = ground arith in
      rw (smart_convert, e, frames_of-more (suc (suc n)) (omega arith), other)
        (ap (λ r. to_webm_video t b fuel r.2 f is_custom_emoji) e)
