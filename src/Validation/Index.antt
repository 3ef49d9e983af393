-- ===== src/Validation/Index.antt =====
-- The errors of a listener depend on its index in their paths only.
use mathlib.Core.List.{cons-ne-nil}
use ingress_nextgen.Common.{
  List, [], ap, arith, false, if_rel, length, map, not, refl, string_eq, suc, true, ℕ, ℕ_eq, ◌&&◌,
  ◌+++◌, ◌==◌, ◌∷◌, ◌≡◌,
}
use ingress_nextgen.Common.Bytes.{Bytes, Bytes_eq}
use ingress_nextgen.Objects.{Listener}
use ingress_nextgen.Validation.{
  Checks, FieldError, FieldPath, allowed_protocols, invalid, is_wrong_ip, validate_listener,
  validate_listener_ipv4, validate_listener_ipv6, validate_listener_name, validate_listener_port,
  validate_listener_protocol,
}

-- The index of a listener stands in its errors only.
unfoldable SameLength : List FieldError → List FieldError → Type 0
SameLength xs ys = length xs ≡ length ys

length-invalid :
    (p q : FieldPath) (msgs : List Bytes) → SameLength (map (invalid p) msgs) (map (invalid q) msgs)
unfolding SameLength
length-invalid p q [] = refl
length-invalid p q (m ∷ msgs) = ap suc (length-invalid p q msgs)

SameLength-append :
    (xs ys xs' ys' : List FieldError)
    → SameLength xs ys
    → SameLength xs' ys'
    → SameLength (xs +++ xs') (ys +++ ys')
unfolding SameLength
SameLength-append [] [] xs' ys' e e' = e'
SameLength-append (x ∷ xs) [] xs' ys' e e' = absurd (omega arith)
SameLength-append [] (y ∷ ys) xs' ys' e e' = absurd (omega arith)
SameLength-append (x ∷ xs) (y ∷ ys) xs' ys' e e' =
    ap suc (SameLength-append xs ys xs' ys' (omega arith) e')

one_each : (e f : FieldError) → SameLength (e ∷ []) (f ∷ [])
unfolding SameLength
one_each e f = refl

none_each : SameLength [] []
unfolding SameLength
none_each = refl

SameLength-nil : (xs ys : List FieldError) → SameLength xs ys → xs ≡ [] → ys ≡ []
unfolding SameLength
SameLength-nil xs [] e q = refl
SameLength-nil [] (y ∷ ys) e q = absurd (omega arith)
SameLength-nil (x ∷ xs) (y ∷ ys) e q = absurd (cons-ne-nil x xs q)

module _ (checks : Checks) where
  validate_listener-index :
      (i j : ℕ) (l : Listener)
      → SameLength (validate_listener checks i l) (validate_listener checks j l)
  unfolding validate_listener validate_listener_name validate_listener_port
      validate_listener_protocol validate_listener_ipv4 validate_listener_ipv6
  validate_listener-index i j l =
      SameLength-append (validate_listener_name checks i l.name)
        (validate_listener_name checks j l.name) _ _
        (if_rel SameLength (l.name == "tls-passthrough") (one_each _ _) (length-invalid _ _ _))
        (SameLength-append (validate_listener_port checks i l.name l.port)
          (validate_listener_port checks j l.name l.port) _ _
          (if_rel SameLength (checks.forbidden_listener_ports l.port) (one_each _ _)
            (length-invalid _ _ _))
          (SameLength-append (validate_listener_protocol checks i l.protocol)
            (validate_listener_protocol checks j l.protocol) _ _
            (if_rel SameLength (allowed_protocols l.protocol) none_each (one_each _ _))
            (SameLength-append (validate_listener_ipv4 checks i l.ipv4)
              (validate_listener_ipv4 checks j l.ipv4) _ _
              (if_rel SameLength
                (not (l.ipv4 == "") && is_wrong_ip true (checks.parse_ip_sloppy l.ipv4))
                (one_each _ _) none_each)
              (if_rel SameLength
                (not (l.ipv6 == "") && is_wrong_ip false (checks.parse_ip_sloppy l.ipv6))
                (one_each _ _) none_each))))

  -- A listener that is valid at one index is valid at every other.
  pub validate_listener_any :
      (i j : ℕ) (l : Listener)
      → validate_listener checks i l ≡ []
      → validate_listener checks j l ≡ []
  validate_listener_any i j l =
      SameLength-nil (validate_listener checks i l) (validate_listener checks j l)
        (validate_listener-index i j l)
