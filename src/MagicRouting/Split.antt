-- ===== src/MagicRouting/Split.antt =====
-- `str::split` at one character.
use Prim.Native.Char.{Char, code}
use Prim.Native.String.{String, [] as nil, ◌∷◌ as ◌∷ₛ◌}
use bullbitcoin_rnd.Base.{ℕ, List, [], ◌∷◌, ◌==◌, if◌then◌else◌}

-- The character goes in front of the first part.
abbrev pub prepend : Char → List String → List String
prepend c [] = (c ∷ₛ nil) ∷ []
prepend c (part ∷ parts) = (c ∷ₛ part) ∷ parts

-- The parts between the separators, given by their code; there is always one.
unfoldable pub split : ℕ → String → List String
split separator nil = nil ∷ []
split separator (c ∷ₛ text) =
    let rest = split separator text in if code c == separator then nil ∷ rest else prepend c rest
