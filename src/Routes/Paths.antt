-- ===== src/Routes/Paths.antt =====
-- Paths and references of routes: NormalizePath of pkg/apis/configuration/validation/virtualserver.go
-- and HasNamespace of internal/nsutils/utils.go.
use Prim.Native.Char.{Char, code}
use text.Mathlib.Text.{starts_with}
use ingress_nextgen.Common.{
  Bool, List, String, [], contains, false, if◌then◌else◌, string_eq, ℕ_eq, ◌++◌, ◌==◌, ◌||◌, ◌∷◌,
}

-- unicode.IsSpace
unfoldable pub is_space : Char → Bool
unfolding contains
is_space c =
    contains
      (9 ∷ 10 ∷ 11 ∷ 12 ∷ 13 ∷ 32 ∷ 0x85 ∷ 0xA0 ∷ 0x1680 ∷ 0x2000 ∷ 0x2001 ∷ 0x2002 ∷ 0x2003
        ∷ 0x2004 ∷ 0x2005 ∷ 0x2006 ∷ 0x2007 ∷ 0x2008 ∷ 0x2009 ∷ 0x200A ∷ 0x2028 ∷ 0x2029 ∷ 0x202F
        ∷ 0x205F ∷ 0x3000 ∷ [])
      (code c)

-- strings.TrimLeftFunc(s, unicode.IsSpace)
unfoldable pub trim_left : String → String
unfolding is_space
trim_left String.[] = ""
trim_left (String.◌∷◌ c s) = if is_space c then trim_left s else String.◌∷◌ c s

-- strings.TrimPrefix(s, prefix), where s has the prefix
unfoldable pub drop_prefix : String → String → String
drop_prefix String.[] s = s
drop_prefix (String.◌∷◌ c p) String.[] = ""
drop_prefix (String.◌∷◌ c p) (String.◌∷◌ d s) = drop_prefix p s

-- The loop over the modifiers ends at the first that the path begins with.
unfoldable pub normalize_with : List String → String → String
unfolding trim_left drop_prefix
normalize_with [] path = path
normalize_with (mod_ ∷ mods) path =
    if starts_with path mod_
    then mod_ ++ trim_left (drop_prefix mod_ path)
    else normalize_with mods path

unfoldable pub normalize_path : String → String
unfolding normalize_with
normalize_path = normalize_with ("~*" ∷ "~" ∷ "^~" ∷ "=" ∷ [])

-- strings.Contains(s, "/")
unfoldable pub has_namespace : String → Bool
has_namespace String.[] = false
has_namespace (String.◌∷◌ c s) = code c == b'/' || has_namespace s
