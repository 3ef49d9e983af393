-- ===== src/References/Parsed.antt =====
-- A reference that is written with its namespace is read back.
use text.Mathlib.TextLemmas.{cons-append, nil-append}
use ingress_nextgen.Common.{String, [], ap, arith, false, refl, true, ◌++◌, ◌∙◌, ◌∷◌, ◌≡◌}
use ingress_nextgen.References.{format_resource_reference, parse_resource_reference, split}
use ingress_nextgen.Routes.Paths.{has_namespace}

slash : (t : String) → ("/" ++ t) ≡ String.◌∷◌ "/" t
slash t = cons-append "/" "" t ∙ ap (String.◌∷◌ "/") (nil-append t)

split_alone : (s : String) → has_namespace s ≡ false → split b'/' s ≡ s ∷ []
unfolding split has_namespace
split_alone String.[] h = refl
split_alone (String.◌∷◌ c s) h = ground (arith, split_alone s)

split_pair :
    (s t : String)
    → has_namespace s ≡ false
    → has_namespace t ≡ false
    → split b'/' (s ++ ("/" ++ t)) ≡ s ∷ t ∷ []
unfolding split has_namespace
split_pair String.[] t h k = rw (nil-append, slash t) (ap (λ ws. "" ∷ ws) (split_alone t k))
split_pair (String.◌∷◌ c s) t h k =
    rw cons-append (ground (arith, split_pair s t (ground (arith, h)) k))

has_namespace_pair : (s t : String) → has_namespace (s ++ ("/" ++ t)) ≡ true
unfolding has_namespace
has_namespace_pair String.[] t = rw (nil-append, slash t) refl
has_namespace_pair (String.◌∷◌ c s) t = rw cons-append (ground (arith, has_namespace_pair s t))

-- A namespace and a name without slashes are read back from the reference that is written of them,
-- whatever the default namespace is.
pub parse_resource_reference-format_resource_reference :
    (namespace name default_namespace : String)
    → has_namespace namespace ≡ false
    → has_namespace name ≡ false
    → parse_resource_reference (format_resource_reference namespace name) default_namespace
      ≡ (namespace, name)
unfolding parse_resource_reference format_resource_reference
parse_resource_reference-format_resource_reference namespace name default_namespace h k =
    rw (has_namespace_pair namespace name, split_pair namespace name h k) refl
