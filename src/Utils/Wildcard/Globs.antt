-- ===== src/Utils/Wildcard/Globs.antt =====
-- What a wildcard stands for.
use bright_cli.Prelude.{ℕ, ◌≡◌, ◌≢◌, false, [], ◌∷◌, Text}
use bright_cli.Utils.Wildcard.{star, is_line_end}

-- A star stands for any text in one line, and every other code unit for itself.
pub data Globs : Text → Text → Type 0 where
  nil : Globs [] []
  unit : {c d : ℕ} {w s : Text} → c ≢ star → d ≡ c → Globs w s → Globs (c ∷ w) (d ∷ s)
  star_stop : {c : ℕ} {w s : Text} → c ≡ star → Globs w s → Globs (c ∷ w) s
  star_more :
      {c d : ℕ} {w s : Text}
      → c ≡ star
      → is_line_end d ≡ false
      → Globs (c ∷ w) s
      → Globs (c ∷ w) (d ∷ s)
