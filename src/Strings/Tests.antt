-- ===== src/Strings/Tests.antt =====
-- Texts of Shared/mstring.c.
use tp_2017_2c_yatpos.Base.{◌≡◌, refl, [], ◌∷◌, some}
use tp_2017_2c_yatpos.Strings.{mstring_trim}

trimmed : mstring_trim (32 ∷ 97 ∷ 32 ∷ 98 ∷ 32 ∷ 10 ∷ []) ≡ some (97 ∷ 32 ∷ 98 ∷ [])
unfolding mstring_trim
trimmed = refl

trimmed_single : mstring_trim (32 ∷ 97 ∷ []) ≡ some []
unfolding mstring_trim
trimmed_single = refl
