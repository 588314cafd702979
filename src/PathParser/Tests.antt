-- ===== src/PathParser/Tests.antt =====
-- Each theorem on the path parser of fs/pparser.c at one path.
use custom_os.Base.{ℕ, ◌≡◌, refl, List, [], ◌∷◌}
use custom_os.PathParser.{Parts, skip_slash}

abbrev name : List ℕ
name = b'a' ∷ b'/' ∷ b'b' ∷ []

abbrev path : List ℕ
path = b'0' ∷ b':' ∷ b'/' ∷ name

abbrev no_parts : Parts
no_parts = record { part = λ a. 0; next = λ a. 0 }

behind_slash : (skip_slash (b'/' ∷ name) ≡ name) × (skip_slash name ≡ name)
unfolding skip_slash
behind_slash = (refl, refl)
