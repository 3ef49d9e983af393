-- ===== src/Configuration/Operations/Reported.antt =====
-- The error of a rejected object is reported: on a change of its resource, or as a problem.
use ingress_nextgen.Common.{
  ==_refl, Bool, Bool-cases, List, Option, String, [], false, inl, inr, none, refl, some, string_eq,
  true, ℕ_eq, ◌&&◌, ◌+++◌, ◌==◌, ◌||◌, ◌∷◌, ◌≡◌, ◌⊎◌,
}
use ingress_nextgen.Changes.{ResourceChange, change_key}
use ingress_nextgen.Problems.{ConfigObject}
use ingress_nextgen.Configuration.Rebuild.{Outcome}
use ingress_nextgen.Configuration.Operations.Reporting.{
  add_error, error_problem, on_change, set_error,
}

-- some change is of the resource with the key
abbrev pub names_key : String → List ResourceChange → Bool
names_key key [] = false
names_key key (ch ∷ chs) = change_key ch == key || names_key key chs

-- some change of the resource with the key has the error
abbrev pub carries_error : String → String → List ResourceChange → Bool
carries_error key err [] = false
carries_error key err (ch ∷ chs) =
    (change_key ch == key && ch.error == err) || carries_error key err chs

abbrev IsErrorSet : String → String → List ResourceChange → Option (List ResourceChange) → Type 0
IsErrorSet key err chs none = names_key key chs ≡ false
IsErrorSet key err chs (some chs') =
    (names_key key chs ≡ true) × (carries_error key err chs' ≡ true)

set_error_lem :
    (key err : String) (chs : List ResourceChange) → IsErrorSet key err chs (set_error key err chs)
unfolding set_error
set_error_lem key err [] = refl
set_error_lem key err (ch ∷ chs) = elim (Bool-cases (change_key ch == key)) [
  | inl t ↦ rw t (rw (t, ==_refl err) (refl, refl))
  | inr n ↦ rw n (go (set_error key err chs) (set_error_lem key err chs) n)
]
  where
    go :
        (v : Option (List ResourceChange))
        → IsErrorSet key err chs v
        → (change_key ch == key) ≡ false
        → IsErrorSet key err (ch ∷ chs) (elim v as (λ _. Option (List ResourceChange)) [
          | none ↦ none
          | some chs' ↦ some (ch ∷ chs')
        ])
    go none h n = rw n h
    go (some chs') (h, k) n = rw n (h, k)

-- Either a change names the key, and then one of them carries the error and no problem is added; or
-- none does, and then the changes stay and the problem of the object is added at the end.
pub add_error_lem :
    (key err message : String) (object : ConfigObject) (o : Outcome)
    → ((names_key key o.1 ≡ true)
        × (carries_error key err (add_error (on_change key err object message) o).1 ≡ true)
        × ((add_error (on_change key err object message) o).2 ≡ o.2))
      ⊎ ((names_key key o.1 ≡ false)
          × ((add_error (on_change key err object message) o).1 ≡ o.1)
          × ((add_error (on_change key err object message) o).2
              ≡ o.2 +++ error_problem object message ∷ []))
unfolding add_error
add_error_lem key err message object (c, changes, problems) =
    go (set_error key err changes) refl (set_error_lem key err changes)
  where
    go :
        (v : Option (List ResourceChange))
        → set_error key err changes ≡ v
        → IsErrorSet key err changes (set_error key err changes)
        → ((names_key key changes ≡ true)
            × (carries_error key err
                  (add_error (on_change key err object message) (c, changes, problems)).1
                ≡ true)
            × ((add_error (on_change key err object message) (c, changes, problems)).2 ≡ problems))
          ⊎ ((names_key key changes ≡ false)
              × ((add_error (on_change key err object message) (c, changes, problems)).1 ≡ changes)
              × ((add_error (on_change key err object message) (c, changes, problems)).2
                  ≡ problems +++ error_problem object message ∷ []))
    go none q s = inr ((rw q at s), rw (q, add_error) refl, rw (q, add_error) refl)
    go (some chs) q s =
        let (a, b) = (rw q at s) in inl (a, rw (q, add_error) b, rw (q, add_error) refl)
