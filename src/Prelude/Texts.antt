-- ===== src/Prelude/Texts.antt =====
-- Slices of a text, by its characters.
use Prim.Native.Nat.{ℕ, ◌-◌}
use Prim.Native.String.{String}
use lumenos_hiper_v.Prelude.Tests.{if◌then◌else◌, ◌==◌}

-- `text[:n]`
unfoldable pub take_text : ℕ → String → String
take_text n String.[] = ""
take_text n (String.◌∷◌ c s) =
    let rest = take_text (n - 1) s in if n == 0 then "" else String.◌∷◌ c rest

-- `text[n:]`
unfoldable pub drop_text : ℕ → String → String
drop_text n String.[] = ""
drop_text n (String.◌∷◌ c s) =
    let rest = drop_text (n - 1) s in if n == 0 then String.◌∷◌ c s else rest
