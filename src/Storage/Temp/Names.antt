-- ===== src/Storage/Temp/Names.antt =====
-- The names that CreateUserDir makes and the pattern that CleanUserDir and PurgeOutdated accept.
use x_sticker_bot.Base.{
  ℕ, zero, suc, ◌*◌, ◌<◌, ◌≡◌, ◌≢◌, refl, ap, ◌∙◌, ◌/◌, ◌%◌, inl, inr, Bool-cases, true, false,
  List, [], ◌∷◌, ◌++◌, arith, length, All, Bytes,
}
use x_sticker_bot.Base.Decimal.{decimal, IsDigit, decimal-IsDigit, decimal-ne-nil}
use x_sticker_bot.Base.FilePath.{slash, Lacks, IsSegment}
use x_sticker_bot.Base.Int.{ℤ, pos, negsuc}
use x_sticker_bot.Storage.Temp.{
  decimal_int, hex_digit, hex_encode, is_digit, is_hex, match_hex, match_digits, user_dir_name,
  new_dir_name,
}

hex_digit-is_hex : (n : ℕ) → n < 16 → is_hex (hex_digit n) ≡ true
unfolding hex_digit
hex_digit-is_hex n h = ground arith

match_hex-encode :
    (bs : List ℕ) → All (λ b. b < 256) bs → match_hex (2 * length bs) (hex_encode bs) ≡ true
unfolding hex_encode match_hex
match_hex-encode [] h = refl
match_hex-encode (b ∷ bs) h =
    rw two (
      ground (arith, hex_digit-is_hex (b / 16), hex_digit-is_hex (b % 16), match_hex-encode bs h.1))
  where
    two : 2 * length (b ∷ bs) ≡ suc (suc (2 * length bs))
    two = omega arith

match_digits-append :
    (ds h : Bytes) → All IsDigit ds → match_digits (ds ++ (b'_' ∷ h)) ≡ match_hex 16 h
unfolding match_digits
match_digits-append [] h d = refl
match_digits-append (c ∷ ds) h d = ground (arith, match_digits-append ds h d.1)

user_dir_name-append :
    (ds h : Bytes) → ds ≢ [] → All IsDigit ds → user_dir_name (ds ++ (b'_' ∷ h)) ≡ match_hex 16 h
unfolding user_dir_name
user_dir_name-append [] h ne d = absurd (ne refl)
user_dir_name-append (c ∷ ds) h ne d = ground (arith, match_digits-append ds h d.1)

-- Of a uid that is not negative, CreateUserDir makes a name that the other operations accept,
-- whatever the eight random bytes are; of a negative uid it makes one that they refuse.
pub user_dir_name-new :
    (uid : ℤ) (rand : List ℕ)
    → length rand ≡ 8
    → All (λ b. b < 256) rand
    → user_dir_name (new_dir_name uid rand) ≡ (elim uid [ pos n ↦ true | negsuc n ↦ false ])
unfolding decimal_int user_dir_name
user_dir_name-new (pos n) rand l h =
    let sixteen : 16 ≡ 2 * length rand = omega arith in
    user_dir_name-append (decimal n) (hex_encode rand) (decimal-ne-nil n) (decimal-IsDigit n)
    ∙ ap (λ k. match_hex k (hex_encode rand)) sixteen
    ∙ match_hex-encode rand h
user_dir_name-new (negsuc n) rand l h = refl

match_hex-Lacks : (n : ℕ) (s : Bytes) → match_hex n s ≡ true → Lacks slash s
unfolding match_hex
match_hex-Lacks n [] h = tt
match_hex-Lacks zero (c ∷ s) h = cc
match_hex-Lacks (suc n) (c ∷ s) h = (ground arith, match_hex-Lacks n s (ground arith))

match_digits-Lacks : (s : Bytes) → match_digits s ≡ true → Lacks slash s
unfolding match_digits
match_digits-Lacks [] h = tt
match_digits-Lacks (c ∷ s) h = elim (Bool-cases (is_digit c)) [
  | inl d ↦ (ground arith, match_digits-Lacks s (ground arith))
  | inr n ↦ (ground arith, match_hex-Lacks 16 s (ground arith))
]

-- An accepted name is one segment of a path: no slash, and neither `.` nor `..`.
pub user_dir_name-IsSegment : (s : Bytes) → user_dir_name s ≡ true → IsSegment s
unfolding user_dir_name
user_dir_name-IsSegment [] h = cc
user_dir_name-IsSegment (c ∷ s) h =
    (ground arith, ground arith, ground arith, (ground arith, match_digits-Lacks s (ground arith)))
