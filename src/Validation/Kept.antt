-- ===== src/Validation/Kept.antt =====
-- The listeners that getValidListeners keeps.
use mathlib.Core.List.{cons-ne-nil}
use ingress_nextgen.Common.{
  List, [], ap, arith, inl, inr, length, refl, suc, ℕ, ◌+++◌, ◌↔◌, ◌∷◌, ◌≡◌, ◌≤◌,
}
use ingress_nextgen.Objects.{GlobalConfiguration, Listener}
use ingress_nextgen.Validation.{
  Checks, FieldError, admit_listener, get_valid_listeners, valid_listeners_from,
  validate_global_configuration, validate_listener,
}
use ingress_nextgen.Validation.Ports.{Taken}
use ingress_nextgen.Validation.Compatible.{
  AllCompatible, CompatibleWithAll, Covers, fresh-Compatible,
}
use ingress_nextgen.Validation.Rounds.{Ends, IsFresh, Round, admit_listener-Ends}

-- The listeners can stand together, and with all that are covered.
unfoldable Stand : Taken → List Listener → Type 0
Stand t ls = AllCompatible ls × ((k : Listener) → Covers t k → CompatibleWithAll k ls)

Stand-round :
    (P : Type 0) (t : Taken) (l : Listener) (r : Round) (ls : List Listener)
    → Ends (P × IsFresh t l) t l r
    → Stand r.0 ls
    → Stand t (r.1 +++ ls)
unfolding Ends Stand
Stand-round P t l (t', kept, errs) ls (grows, inl (q, e)) (every, each) =
    rw q (every, λ k c. each k (grows k c))
Stand-round P t l (t', kept, errs) ls (grows, inr (q, e, (p, (new, (free4, free6))), c))
      (every, each) =
    rw q ((each l c, every), λ k h. (fresh-Compatible t l k new free4 free6 h, each k (grows k h)))

Stand-AllCompatible : (t : Taken) (ls : List Listener) → Stand t ls → AllCompatible ls
unfolding Stand
Stand-AllCompatible t ls (every, each) = every

-- Every listener is kept exactly if there is no error; never more are kept.
unfoldable Counted : List Listener → List Listener → List FieldError → Type 0
Counted ls valid errs =
    (length valid ≤ length ls) × ((errs ≡ []) → valid ≡ ls) × ((valid ≡ ls) → errs ≡ [])

longer : (xs ys : List Listener) → length xs ≤ length ys → length xs ≡ suc (length ys) → ⊥
longer xs ys n e = omega arith

append-nil : (es more : List FieldError) → (es +++ more) ≡ [] → (es ≡ []) × (more ≡ [])
append-nil [] more q = (refl, q)
append-nil (e ∷ es) more q = absurd (cons-ne-nil e (es +++ more) q)

Counted-round :
    (P : Type 0) (t : Taken) (l : Listener) (r : Round) (ls valid : List Listener)
    (errs : List FieldError)
    → Ends P t l r
    → Counted ls valid errs
    → Counted (l ∷ ls) (r.1 +++ valid) (r.2 +++ errs)
unfolding Ends Counted
Counted-round P t l (t', kept, es) ls valid errs (grows, inl (q, e)) (n, a, b) = rw q (
  omega arith,
  λ none. absurd (e (append-nil es errs none).0),
  λ same. absurd (longer valid ls n (ap length same)),
)
Counted-round P t l (t', kept, es) ls valid errs (grows, inr (q, e, p, c)) (n, a, b) =
    rw (q, e) (omega arith, λ none. ap (λ xs. l ∷ xs) (a none), λ same. b (cc same))

module _ (checks : Checks) where
  valid_listeners_from-Stand :
      (t : Taken) (i : ℕ) (ls : List Listener) → Stand t (valid_listeners_from checks t i ls).0
  unfolding valid_listeners_from Stand
  valid_listeners_from-Stand t i [] = (tt, λ k c. tt)
  valid_listeners_from-Stand t i (l ∷ ls) =
      Stand-round (validate_listener checks i l ≡ []) t l (admit_listener checks t i l) _
        (admit_listener-Ends checks t i l)
        (valid_listeners_from-Stand (admit_listener checks t i l).0 (suc i) ls)

  valid_listeners_from-Counted :
      (t : Taken) (i : ℕ) (ls : List Listener)
      → Counted ls (valid_listeners_from checks t i ls).0 (valid_listeners_from checks t i ls).1
  unfolding valid_listeners_from Counted
  valid_listeners_from-Counted t i [] = (omega arith, λ e. refl, λ e. refl)
  valid_listeners_from-Counted t i (l ∷ ls) =
      Counted-round _ t l (admit_listener checks t i l) ls _ _ (admit_listener-Ends checks t i l)
        (valid_listeners_from-Counted (admit_listener checks t i l).0 (suc i) ls)

  -- In a validated GlobalConfiguration no two listeners have the same name, and no two have
  -- the same port, the same address of either version, and protocols of which both run over TCP or
  -- both over UDP.
  pub validate_global_configuration-AllCompatible :
      (gc : GlobalConfiguration)
      → AllCompatible (validate_global_configuration checks gc).0.listeners
  unfolding validate_global_configuration get_valid_listeners
  validate_global_configuration-AllCompatible gc =
      Stand-AllCompatible _ _ (valid_listeners_from-Stand _ 0 gc.listeners)

  -- The validation reports no error exactly if it leaves the listeners as they are.
  pub validate_global_configuration-errors :
      (gc : GlobalConfiguration)
      → ((validate_global_configuration checks gc).1 ≡ [])
        ↔ ((validate_global_configuration checks gc).0.listeners ≡ gc.listeners)
  unfolding validate_global_configuration get_valid_listeners Counted
  validate_global_configuration-errors gc =
      let (n, a, b) = valid_listeners_from-Counted _ 0 gc.listeners in (a, b)
