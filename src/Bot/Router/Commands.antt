-- ===== src/Bot/Router/Commands.antt =====
-- The command of a text.
use x_sticker_bot.Base.{
  ℕ, ◌≡◌, ◌≢◌, refl, [], ◌∷◌, ◌++◌, arith, Bytes, before_byte, append-nil, All,
}
use x_sticker_bot.Bot.Router.{extract_command}

cut_name :
    (name t : Bytes)
    → All (λ c. (c ≢ b'@') × (c ≢ b' ')) name
    → before_byte b' ' (before_byte b'@' (name ++ t))
      ≡ name ++ before_byte b' ' (before_byte b'@' t)
unfolding before_byte
cut_name [] t h = refl
cut_name (c ∷ name) t h = ground (arith, cut_name name t h.1)

-- A command is cut at the first `@` or space behind it, whatever follows; a text that does not
-- begin with a slash has none.
pub extract_command_lem :
    (name rest : Bytes)
    → All (λ c. (c ≢ b'@') × (c ≢ b' ')) name
    → (extract_command (b'/' ∷ name) ≡ b'/' ∷ name)
      × (extract_command (b'/' ∷ (name ++ (b'@' ∷ rest))) ≡ b'/' ∷ name)
      × (extract_command (b'/' ∷ (name ++ (b' ' ∷ rest))) ≡ b'/' ∷ name)
      × ((c : ℕ) (s : Bytes) → c ≢ b'/' → extract_command (c ∷ s) ≡ [])
unfolding extract_command before_byte
extract_command_lem name rest h = (
  ground (arith, cut_name name [] h, append-nil name),
  ground (arith, cut_name name (b'@' ∷ rest) h, append-nil name),
  ground (arith, cut_name name (b' ' ∷ rest) h, append-nil name),
  λ c s ne. ground arith,
)
