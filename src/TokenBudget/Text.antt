-- ===== src/TokenBudget/Text.antt =====
-- Texts as the program measures and cuts them, by characters.
use Prim.Native.String.{◌++◌, count}
use sky_claw_gravity.Prelude.{List, String, [], suc, zero, ℕ, ◌∷◌}

-- `len(t)`
unfoldable pub chars : String → ℕ
chars t = count t

-- `a + b`
unfoldable pub concat : String → String → String
concat a b = a ++ b

-- `t[:n]`
unfoldable pub prefix : ℕ → String → String
prefix zero t = ""
prefix (suc n) String.[] = ""
prefix (suc n) (String.◌∷◌ c t) = String.◌∷◌ c (prefix n t)

-- `sep.join(ts)`
unfoldable pub join : String → List String → String
join sep [] = ""
join sep (t ∷ []) = t
join sep (t ∷ u ∷ ts) = t ++ (sep ++ join sep (u ∷ ts))
