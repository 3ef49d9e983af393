-- ===== src/Changes/Squash.antt =====
-- Squashing keeps what the changes do, and leaves one change for a resource, deletes first.
use mathlib.Core.List.{append_assoc, append-nil}
use mathlib.Core.Path.{subst}
use mathlib.Core.Option.{some-injective}
use text.Mathlib.TextEquality.{eq_iff}
use ingress_nextgen.Common.{
  ==_refl, ==_true, Bool, Bool-cases, List, Option, String, [], all, any, ap, arith, false,
  if◌then◌else◌, inl, inr, none, refl, some, string_eq, sym, true, ℕ_eq, ◌+++◌, ◌==◌, ◌||◌, ◌∙◌,
  ◌∷◌, ◌≡◌, ◌⊎◌,
}
use ingress_nextgen.Common.Maps.{Map, keys, lookup, lookup-insert, lookup-remove, remove}
use ingress_nextgen.Changes.{
  Operation, ResourceChange, add_change, change_key, file_change, final_op, group_changes,
  last_change, squash_loop, squash_resource_changes,
}

abbrev pub or_else : Option Operation → Option Operation → Option Operation
or_else (some o) p = some o
or_else none p = p

pub final_op-append :
    (k : String) (xs ys : List ResourceChange)
    → final_op k (xs +++ ys) ≡ or_else (final_op k ys) (final_op k xs)
final_op-append k [] ys = ground arith
final_op-append k (x ∷ xs) ys = ground (arith, final_op-append k xs ys)

-- The changes of one resource, in order.
abbrev pub of_key : String → List ResourceChange → List ResourceChange
of_key k [] = []
of_key k (c ∷ cs) = if change_key c == k then c ∷ of_key k cs else of_key k cs

abbrev merge : Option (List ResourceChange) → List ResourceChange → Option (List ResourceChange)
merge none [] = none
merge none (c ∷ cs) = some (c ∷ cs)
merge (some cs) ds = some (cs +++ ds)

merge-cons :
    (o : Option (List ResourceChange)) (c : ResourceChange) (cs : List ResourceChange)
    → merge (some (elim o [ none ↦ c ∷ [] | some ds ↦ ds +++ c ∷ [] ])) cs ≡ merge o (c ∷ cs)
merge-cons none c cs = refl
merge-cons (some ds) c cs = ap some (append_assoc ds (c ∷ []) cs)

merge-nil : (o : Option (List ResourceChange)) → o ≡ merge o []
merge-nil none = refl
merge-nil (some cs) = ap some (sym (append-nil cs))

-- The first loop collects, for each resource, its changes in order.
group_changes_lem :
    (k : String) (m : Map String (List ResourceChange)) (cs : List ResourceChange)
    → lookup k (group_changes m cs) ≡ merge (lookup k m) (of_key k cs)
unfolding group_changes
group_changes_lem k m [] = merge-nil (lookup k m)
group_changes_lem k m (c ∷ cs) = simp (group_changes_lem k (add_change c m) cs) (
    unfold add_change in
    simp lookup-insert (elim (Bool-cases (change_key c == k)) [
      | inl e ↦ rw (e, ==_true (change_key c) k e) (merge-cons (lookup k m) c (of_key k cs))
      | inr n ↦ rw n
    ]))

-- Every change of the list is of this resource.
abbrev pub AllKey : String → List ResourceChange → Type 0
AllKey k [] = Unit
AllKey k (c ∷ cs) = (change_key c ≡ k) × AllKey k cs

of_key-AllKey : (k : String) (cs : List ResourceChange) → AllKey k (of_key k cs)
of_key-AllKey k [] = tt
of_key-AllKey k (c ∷ cs) = elim (Bool-cases (change_key c == k)) [
  | inl e ↦ rw e (==_true (change_key c) k e, of_key-AllKey k cs)
  | inr n ↦ rw n (of_key-AllKey k cs)
]

pub last_change_lem :
    (k : String) (d : ResourceChange) (ds : List ResourceChange)
    → AllKey k (d ∷ ds)
    → (change_key (last_change d ds) ≡ k) × (final_op k (d ∷ ds) ≡ some (last_change d ds).op)
unfolding last_change
last_change_lem k d [] h = (h.0, rw h.0 (rw (==_refl k)))
last_change_lem k d (x ∷ xs) h = let (same, last) = last_change_lem k x xs h.1 in (same, rw last)

-- each entry of the grouping has changes of its own resource
abbrev pub IsKeyed : Map String (List ResourceChange) → Type 0
IsKeyed m = (k : String) (cs : List ResourceChange) → lookup k m ≡ some cs → AllKey k cs

pub remove-IsKeyed :
    (j : String) (m : Map String (List ResourceChange)) → IsKeyed m → IsKeyed (remove j m)
remove-IsKeyed j m keyed k cs h = ground (arith, lookup-remove j k m, keyed k cs)

abbrev stored_op : String → Option (List ResourceChange) → Option Operation
stored_op k none = none
stored_op k (some cs) = final_op k cs

abbrev names_key : String → List ResourceChange → Bool
names_key k cs = any (λ c. change_key c == k) cs

abbrev filed_op : String → List ResourceChange × List ResourceChange → Option Operation
filed_op k (deletes, updates) = or_else (final_op k updates) (final_op k deletes)

pub Operation-cases : (o : Operation) → (o ≡ Operation.delete) ⊎ (o ≡ Operation.add_or_update)
Operation-cases Operation.delete = inl refl
Operation-cases Operation.add_or_update = inr refl

filed_op-file_change :
    (k : String) (c : ResourceChange) (filed : List ResourceChange × List ResourceChange)
    → (change_key c ≡ k → filed_op k filed ≡ none)
    → filed_op k (file_change c filed) ≡ (if change_key c == k then some c.op else filed_op k filed)
unfolding file_change
filed_op-file_change k c (ds, us) fresh = elim (Operation-cases c.op) [
  | inl e ↦ rw (e, file_change) (ground (arith, eq_iff (change_key c) k))
  | inr e ↦ rw (e, file_change) (ground (arith, eq_iff (change_key c) k))
]

-- The two ways of a round of the second loop, for the resource `k`: `this` tells whether the change
-- is of `k`, and `later` whether one that follows is.
unnamed :
    (x : Option Operation) (this later : Bool) (k : String) (stored : Option (List ResourceChange))
    → x ≡ (if later then stored_op k (if this then none else stored) else none)
    → this ≡ true
    → x ≡ none
unnamed x true true k stored h e = h
unnamed x true false k stored h e = h
unnamed x false later k stored h e = cc

skipped :
    (k : String) (x : Option Operation) (this later : Bool) (stored : Option (List ResourceChange))
    → x ≡ (if later then stored_op k stored else none)
    → (this ≡ true → stored ≡ none)
    → x ≡ (if this || later then stored_op k stored else none)
skipped k x true true stored h e = h
skipped k x true false stored h e = h ∙ ap (stored_op k) (sym (e refl))
skipped k x false later stored h e = h

emptied :
    (k : String) (x : Option Operation) (this later : Bool) (stored : Option (List ResourceChange))
    → x ≡ (if later then stored_op k (if this then none else stored) else none)
    → (this ≡ true → stored ≡ some [])
    → x ≡ (if this || later then stored_op k stored else none)
emptied k x true later stored h e =
    unnamed x true later k stored h refl ∙ ap (stored_op k) (sym (e refl))
emptied k x false later stored h e = h

filed :
    (k : String) (x : Option Operation) (this later : Bool) (stored : Option (List ResourceChange))
    (cs : List ResourceChange)
    → x ≡ (if later then stored_op k (if this then none else stored) else none)
    → (this ≡ true → stored ≡ some cs)
    → (if this then final_op k cs else x) ≡ (if this || later then stored_op k stored else none)
filed k x true later stored cs h e = ap (stored_op k) (sym (e refl))
filed k x false later stored cs h e = h

module _ (k : String) (m : Map String (List ResourceChange)) (c : ResourceChange) where
  -- the state of the grouping at `k`, once the entry of the change is gone
  at_key :
      (o : Option (List ResourceChange))
      → lookup (change_key c) m ≡ o
      → (change_key c == k) ≡ true
      → lookup k m ≡ o
  at_key o e t = rw (← ==_true (change_key c) k t) e

  same_op :
      (d : ResourceChange) (ds : List ResourceChange) (x : Option Operation)
      → final_op (change_key c) (d ∷ ds) ≡ some (last_change d ds).op
      → (if change_key c == k then some (last_change d ds).op else x)
        ≡ (if change_key c == k then final_op k (d ∷ ds) else x)
  same_op d ds x last = elim (Bool-cases (change_key c == k)) [
    | inl t ↦ rw t (sym last ∙ ap (λ j. final_op j (d ∷ ds)) (==_true (change_key c) k t))
    | inr n ↦ rw n
  ]

  empty_step :
      (cs : List ResourceChange)
      → lookup (change_key c) m ≡ some []
      → filed_op k (squash_loop (remove (change_key c) m) cs)
        ≡ (if names_key k cs then stored_op k (lookup k (remove (change_key c) m)) else none)
      → filed_op k (squash_loop (remove (change_key c) m) cs)
        ≡ (if names_key k (c ∷ cs) then stored_op k (lookup k m) else none)
  empty_step cs e ih =
      emptied k _ (change_key c == k) (names_key k cs) (lookup k m) (rw lookup-remove at ih)
        (at_key (some []) e)

  file_step :
      (d : ResourceChange) (ds : List ResourceChange) (cs : List ResourceChange)
      → AllKey (change_key c) (d ∷ ds)
      → lookup (change_key c) m ≡ some (d ∷ ds)
      → filed_op k (squash_loop (remove (change_key c) m) cs)
        ≡ (if names_key k cs then stored_op k (lookup k (remove (change_key c) m)) else none)
      → filed_op k (file_change (last_change d ds) (squash_loop (remove (change_key c) m) cs))
        ≡ (if names_key k (c ∷ cs) then stored_op k (lookup k m) else none)
  file_step d ds cs keys e ih =
      let (same, last) = last_change_lem (change_key c) d ds keys in
      let held = rw lookup-remove at ih in
      filed_op-file_change k (last_change d ds) (squash_loop (remove (change_key c) m) cs) (λ p.
        unnamed _ (change_key c == k) (names_key k cs) k (lookup k m) held
          (rw (← p, same) (==_refl (change_key c))))
      ∙ rw same (
          same_op d ds _ last
          ∙ filed k _ (change_key c == k) (names_key k cs) (lookup k m) (d ∷ ds) held
              (at_key (some (d ∷ ds)) e))

-- The second loop files, for each resource that the changes name, what the grouping holds for it.
squash_loop_lem :
    (k : String) (m : Map String (List ResourceChange)) (cs : List ResourceChange)
    → IsKeyed m
    → filed_op k (squash_loop m cs) ≡ (if names_key k cs then stored_op k (lookup k m) else none)
unfolding squash_loop
squash_loop_lem k m [] keyed = refl
squash_loop_lem k m (c ∷ cs) keyed =
    go (lookup (change_key c) m) refl (squash_loop_lem k m cs keyed)
      (squash_loop_lem k (remove (change_key c) m) cs (remove-IsKeyed (change_key c) m keyed))
  where
    go :
        (o : Option (List ResourceChange))
        → lookup (change_key c) m ≡ o
        → filed_op k (squash_loop m cs)
          ≡ (if names_key k cs then stored_op k (lookup k m) else none)
        → filed_op k (squash_loop (remove (change_key c) m) cs)
          ≡ (if names_key k cs then stored_op k (lookup k (remove (change_key c) m)) else none)
        → filed_op k (squash_loop m (c ∷ cs))
          ≡ (if names_key k (c ∷ cs) then stored_op k (lookup k m) else none)
    go none e same rest =
        rw (e, squash_loop) (skipped k _ _ (names_key k cs) _ same (at_key k m c none e))
    go (some []) e same rest = rw (e, squash_loop) (empty_step k m c cs e rest)
    go (some (d ∷ ds)) e same rest =
        rw (e, squash_loop) (file_step k m c d ds cs (keyed (change_key c) (d ∷ ds) e) e rest)

final_op-of_key : (k : String) (cs : List ResourceChange) → final_op k (of_key k cs) ≡ final_op k cs
final_op-of_key k [] = refl
final_op-of_key k (c ∷ cs) = elim (Bool-cases (change_key c == k)) [
  | inl t ↦ rw t (rw (final_op-of_key k cs))
  | inr n ↦ rw n (ground (arith, final_op-of_key k cs))
]

pub final_op-unnamed :
    (k : String) (cs : List ResourceChange) → names_key k cs ≡ false → final_op k cs ≡ none
final_op-unnamed k [] h = refl
final_op-unnamed k (c ∷ cs) h = ground (arith, final_op-unnamed k cs)

named :
    (k : String) (cs : List ResourceChange)
    → (if names_key k cs then stored_op k (merge none (of_key k cs)) else none) ≡ final_op k cs
named k cs = elim (Bool-cases (names_key k cs)) [
  | inl t ↦ rw t (stored-merge (of_key k cs) ∙ final_op-of_key k cs)
  | inr n ↦ rw n (sym (final_op-unnamed k cs n))
]
  where
    stored-merge : (ds : List ResourceChange) → stored_op k (merge none ds) ≡ final_op k ds
    stored-merge [] = refl
    stored-merge (d ∷ ds) = refl

pub group_changes-IsKeyed : (cs : List ResourceChange) → IsKeyed (group_changes [] cs)
unfolding lookup
group_changes-IsKeyed cs k ds h =
    go (of_key k cs) (of_key-AllKey k cs) (sym (group_changes_lem k [] cs) ∙ h)
  where
    go : (es : List ResourceChange) → AllKey k es → merge none es ≡ some ds → AllKey k ds
    go [] all e = cc
    go (x ∷ es) all e = subst (AllKey k) (some-injective (x ∷ es) ds e) all

-- For each resource the squashed changes have the effect that the changes had: the last change that
-- names the resource is of the same operation, and a resource is named by both or by neither.
pub final_op-squash_resource_changes :
    (k : String) (cs : List ResourceChange)
    → final_op k (squash_resource_changes cs) ≡ final_op k cs
unfolding squash_resource_changes lookup
final_op-squash_resource_changes k cs =
    let m = group_changes [] cs in
    final_op-append k (squash_loop m cs).0 (squash_loop m cs).1
    ∙ (squash_loop_lem k m cs (group_changes-IsKeyed cs)
        ∙ (rw (group_changes_lem k [] cs) (named k cs)))
