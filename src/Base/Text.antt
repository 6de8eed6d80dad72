-- ===== src/Base/Text.antt =====
-- Texts as the setters of the schemas leave them: `v.trim()` of the language, and equality.
use Prim.Native.Char.{Char, code}
use Prim.Native.String.{String, [], ◌∷◌}
use mathlib.Core.Path.{◌≡◌, sym, ◌∙◌}
use mathlib.Core.Logic.{◌↔◌, inl, inr}
use mathlib.Core.Bool.{Bool, true, false, ◌&&◌, ◌||◌}
use text.Mathlib.Text
use text.Mathlib.TextEquality.{eq_iff}
use impact_wallet_server.Base.Tests.{◌==◌, leb, if◌then◌else◌, Bool-cases}

-- The white space and the line terminators of ECMAScript.
abbrev pub is_space : Char → Bool
is_space c =
    (leb 9 (code c) && leb (code c) 13)
    || (code c == 32)
    || (code c == 160)
    || (code c == 5760)
    || (leb 8192 (code c) && leb (code c) 8202)
    || (code c == 8232)
    || (code c == 8233)
    || (code c == 8239)
    || (code c == 8287)
    || (code c == 12288)
    || (code c == 65279)

abbrev pub is_blank : String → Bool
is_blank [] = true
is_blank (c ∷ s) = false

abbrev pub trim_start : String → String
trim_start [] = []
trim_start (c ∷ s) = if is_space c then trim_start s else c ∷ s

abbrev pub trim_end : String → String
trim_end [] = []
trim_end (c ∷ s) = let rest = trim_end s in if is_space c && is_blank rest then [] else c ∷ rest

abbrev pub trim : String → String
trim s = trim_end (trim_start s)

abbrev pub same_text : String → String → Bool
same_text s t = Text.◌==◌ s t

pub same_text_iff : (s t : String) → (same_text s t ≡ true) ↔ (s ≡ t)
same_text_iff s t = eq_iff s t

pub same_text_sym : (s t : String) → same_text s t ≡ same_text t s
same_text_sym s t = elim (Bool-cases (same_text s t)) [
  | inl h ↦ h ∙ sym ((same_text_iff t s).1 (sym ((same_text_iff s t).0 h)))
  | inr h ↦ elim (Bool-cases (same_text t s)) [
    | inl k ↦ (same_text_iff s t).1 (sym ((same_text_iff t s).0 k)) ∙ sym k
    | inr k ↦ h ∙ sym k
  ]
]
