-- ===== src/Validation/Rounds.antt =====
-- What a round of the loop of getValidListeners does: it keeps its listener without an error, or it
-- drops it with one.
use mathlib.Core.List.{cons-ne-nil}
use ingress_nextgen.Common.{
  ==_refl, Bool, List, String, [], contains, false, if_given, inl, inr, refl, some, string_eq, sym,
  true, ℕ, ℕ_eq, ◌==◌, ◌||◌, ◌∙◌, ◌∷◌, ◌≡◌, ◌≢◌, ◌⊎◌,
}
use ingress_nextgen.Objects.{Listener}
use ingress_nextgen.Validation.{
  Checks, FieldError, admit_listener, admit_named, admit_ports, conflict_error, duplicate,
  unless_errors, validate_listener,
}
use ingress_nextgen.Validation.Ports.{
  Combinations, Taken, conflicts, ensured, get_ip, update_port_protocol_combinations,
}
use ingress_nextgen.Validation.Compatible.{
  Covers, Noted, Noted-ensured, Noted-update, conflicts-ensured, update-Noted,
}

abbrev pub Round : Type 0
Round = Taken × List Listener × List FieldError

-- Every listener that is covered stays covered.
abbrev pub Grows : Taken → Taken → Type 0
Grows t t' = (k : Listener) → Covers t k → Covers t' k

-- Neither version has a conflict.
abbrev IsClear : Taken → Listener → Type 0
IsClear t l =
    (conflicts t.ipv4 (get_ip true l) l ≡ false) × (conflicts t.ipv6 (get_ip false l) l ≡ false)

abbrev pub IsFresh : Taken → Listener → Type 0
IsFresh t l = (contains t.names l.name ≡ false) × IsClear t l

-- The listener is dropped with an error, or, if P holds, it is kept without one and is covered.
unfoldable pub Ends : Type 0 → Taken → Listener → Round → Type 0
Ends P t l (t', kept, errs) =
    Grows t t' × (((kept ≡ []) × (errs ≢ [])) ⊎ ((kept ≡ l ∷ []) × (errs ≡ []) × P × Covers t' l))

-- A round of a state that has more, under a condition.
Ends-weaken :
    (P Q : Type 0) (t t' : Taken) (l : Listener) (r : Round)
    → Grows t t'
    → (P → Q)
    → Ends P t' l r
    → Ends Q t l r
unfolding Ends
Ends-weaken P Q t t' l r grows f (h, inl d) = ((λ k c. h k (grows k c)), inl d)
Ends-weaken P Q t t' l r grows f (h, inr (a, b, p, c)) =
    ((λ k c'. h k (grows k c')), inr (a, b, f p, c))

dropped :
    (P : Type 0) (t t' : Taken) (l : Listener) (e : FieldError) (errs : List FieldError)
    → Grows t t'
    → Ends P t l (t', [], e ∷ errs)
unfolding Ends
dropped P t t' l e errs grows = (grows, inl (refl, cons-ne-nil e errs))

admitted :
    (P : Type 0) (t t' : Taken) (l : Listener)
    → Grows t t'
    → P
    → Covers t' l
    → Ends P t l (t', l ∷ [], [])
unfolding Ends
admitted P t t' l grows p covers = (grows, inr (refl, refl, p, covers))

-- Adding an address, and then noting a listener there.
Noted-both :
    (is_ipv4 : Bool) (c : Combinations) (ip : String) (l k : Listener)
    → Noted is_ipv4 c k
    → Noted is_ipv4 (update_port_protocol_combinations (ensured ip c) ip l) k
Noted-both is_ipv4 c ip l k h =
    Noted-update is_ipv4 (ensured ip c) ip l k (Noted-ensured is_ipv4 c ip k h)

admit_ports-Ends :
    (t : Taken) (l : Listener)
    → contains t.names l.name ≡ true
    → Ends (IsClear t l) t l (admit_ports t l)
unfolding admit_ports
admit_ports-Ends t l named =
    if_given (Ends (IsClear t l) t l) (conflicts (ensured (get_ip true l) t.ipv4) (get_ip true l) l)
      (λ c.
        dropped (IsClear t l) t _ l (conflict_error (get_ip true l) l) []
          (λ k (n, h4, h6). (n, Noted-both true t.ipv4 (get_ip true l) l k h4, h6)))
      (λ free4.
        if_given (Ends (IsClear t l) t l)
          (conflicts (ensured (get_ip false l) t.ipv6) (get_ip false l) l)
          (λ c. dropped (IsClear t l) t _ l (conflict_error (get_ip false l) l) [] (λ k (n, h4, h6).
            (
              n,
              Noted-ensured true t.ipv4 (get_ip true l) k h4,
              Noted-both false t.ipv6 (get_ip false l) l k h6,
            )))
          (λ free6.
            admitted (IsClear t l) t _ l
              (λ k (n, h4, h6). (
                n,
                Noted-both true t.ipv4 (get_ip true l) l k h4,
                Noted-both false t.ipv6 (get_ip false l) l k h6,
              ))
              (
                sym (conflicts-ensured t.ipv4 (get_ip true l) (get_ip true l) l) ∙ free4,
                sym (conflicts-ensured t.ipv6 (get_ip false l) (get_ip false l) l) ∙ free6,
              )
              (
                named,
                update-Noted true (ensured (get_ip true l) t.ipv4) l,
                update-Noted false (ensured (get_ip false l) t.ipv6) l,
              )))

-- One more name.
taken-names : (t : Taken) (l : Listener) → Grows t (record t { names = l.name ∷ t.names })
unfolding contains
taken-names t l k (n, h4, h6) = (or-of (l.name == k.name) n, h4, h6)
  where
    or-of : (a : Bool) {b : Bool} → b ≡ true → (a || b) ≡ true
    or-of true q = refl
    or-of false q = q

named_self : (l : Listener) (names : List String) → contains (l.name ∷ names) l.name ≡ true
unfolding contains
named_self l names = rw (==_refl l.name) refl

admit_named-Ends : (t : Taken) (i : ℕ) (l : Listener) → Ends (IsFresh t l) t l (admit_named t i l)
unfolding admit_named
admit_named-Ends t i l =
    if_given (Ends (IsFresh t l) t l) (contains t.names l.name)
      (λ c.
        dropped (IsFresh t l) t t l (duplicate (record { index = some i; child = "name" }) l.name)
          [] (λ k h. h))
      (λ new.
        let t' : Taken = record t { names = l.name ∷ t.names } in
        Ends-weaken (IsClear t' l) (IsFresh t l) t t' l (admit_ports t' l) (taken-names t l)
          (λ clear. (new, clear)) (admit_ports-Ends t' l (named_self l t.names)))

pub admit_listener-Ends :
    (checks : Checks) (t : Taken) (i : ℕ) (l : Listener)
    → Ends ((validate_listener checks i l ≡ []) × IsFresh t l) t l (admit_listener checks t i l)
unfolding admit_listener
admit_listener-Ends checks t i l = go (validate_listener checks i l)
  where
    go :
        (errs : List FieldError)
        → Ends ((errs ≡ []) × IsFresh t l) t l (unless_errors errs t (admit_named t i l))
    go [] =
        Ends-weaken (IsFresh t l) (([] ≡ []) × IsFresh t l) t t l (admit_named t i l) (λ k h. h)
          (λ fresh. (refl, fresh)) (admit_named-Ends t i l)
    go (e ∷ errs) = dropped ((e ∷ errs ≡ []) × IsFresh t l) t t l e errs (λ k h. h)
