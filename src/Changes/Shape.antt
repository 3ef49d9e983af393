-- ===== src/Changes/Shape.antt =====
-- The shape of the squashed changes: one change for a resource at most, and the deletes first.
use text.Mathlib.TextEquality.{eq_iff}
use ingress_nextgen.Common.{
  List, Option, String, [], arith, if◌then◌else◌, inl, inr, none, refl, some, string_eq, suc, ℕ,
  ℕ_eq, ◌+++◌, ◌+◌, ◌==◌, ◌∷◌, ◌≡◌, ◌≤◌,
}
use ingress_nextgen.Common.Maps.{Map, lookup, lookup-remove, remove}
use ingress_nextgen.Changes.{
  Operation, ResourceChange, change_key, file_change, group_changes, last_change, squash_loop,
  squash_resource_changes,
}
use ingress_nextgen.Changes.Squash.{
  IsKeyed, Operation-cases, group_changes-IsKeyed, last_change_lem, remove-IsKeyed,
}

-- how many of the changes name the resource
abbrev pub count_key : String → List ResourceChange → ℕ
count_key k [] = 0
count_key k (c ∷ cs) = if change_key c == k then suc (count_key k cs) else count_key k cs

count_key-append :
    (k : String) (xs ys : List ResourceChange)
    → count_key k (xs +++ ys) ≡ count_key k xs + count_key k ys
count_key-append k [] ys = omega arith
count_key-append k (x ∷ xs) ys = ground (arith, count_key-append k xs ys)

abbrev count_filed : String → List ResourceChange × List ResourceChange → ℕ
count_filed k (deletes, updates) = count_key k deletes + count_key k updates

count_filed-file_change :
    (k : String) (c : ResourceChange) (filed : List ResourceChange × List ResourceChange)
    → count_filed k (file_change c filed)
      ≡ (if change_key c == k then suc (count_filed k filed) else count_filed k filed)
unfolding file_change
count_filed-file_change k c (ds, us) = elim (Operation-cases c.op) [
  | inl e ↦ rw (e, file_change) (ground arith)
  | inr e ↦ rw (e, file_change) (ground arith)
]

-- how many more changes of a resource the loop can file
abbrev room : Option (List ResourceChange) → ℕ
room none = 0
room (some cs) = 1

count_step :
    (k : String) (m : Map String (List ResourceChange)) (c d : ResourceChange)
    (filed : List ResourceChange × List ResourceChange) {cs : List ResourceChange}
    → change_key d ≡ change_key c
    → lookup (change_key c) m ≡ some cs
    → count_filed k filed ≤ room (lookup k (remove (change_key c) m))
    → count_filed k (file_change d filed) ≤ room (lookup k m)
count_step k m c d filed {cs} same e h = ground (
  arith,
  count_filed-file_change k d filed,
  lookup-remove (change_key c) k m,
  eq_iff (change_key c) k,
  eq_iff (change_key d) k,
)

squash_loop_count :
    (k : String) (m : Map String (List ResourceChange)) (cs : List ResourceChange)
    → IsKeyed m
    → count_filed k (squash_loop m cs) ≤ room (lookup k m)
unfolding squash_loop
squash_loop_count k m [] keyed = omega arith
squash_loop_count k m (c ∷ cs) keyed =
    go (lookup (change_key c) m) refl (squash_loop_count k m cs keyed)
      (squash_loop_count k (remove (change_key c) m) cs (remove-IsKeyed (change_key c) m keyed))
  where
    go :
        (o : Option (List ResourceChange))
        → lookup (change_key c) m ≡ o
        → count_filed k (squash_loop m cs) ≤ room (lookup k m)
        → count_filed k (squash_loop (remove (change_key c) m) cs)
          ≤ room (lookup k (remove (change_key c) m))
        → count_filed k (squash_loop m (c ∷ cs)) ≤ room (lookup k m)
    go none e same rest = rw (e, squash_loop) same
    go (some []) e same rest =
        rw (e, squash_loop) (ground (arith, lookup-remove (change_key c) k m, rest))
    go (some (d ∷ ds)) e same rest =
        rw (e, squash_loop)
          (count_step k m c (last_change d ds) _
            (last_change_lem (change_key c) d ds (keyed (change_key c) (d ∷ ds) e)).0 e rest)

-- Squashing leaves at most one change for a resource.
pub squash_resource_changes_once :
    (k : String) (cs : List ResourceChange) → count_key k (squash_resource_changes cs) ≤ 1
unfolding squash_resource_changes
squash_resource_changes_once k cs =
    let filed = squash_loop (group_changes [] cs) cs in
    ground (
      arith,
      count_key-append k filed.0 filed.1,
      squash_loop_count k (group_changes [] cs) cs (group_changes-IsKeyed cs),
    )

abbrev pub HaveOp : Operation → List ResourceChange → Type 0
HaveOp o [] = Unit
HaveOp o (c ∷ cs) = (c.op ≡ o) × HaveOp o cs

-- No delete stands behind an update.
abbrev pub IsDeletesFirst : List ResourceChange → Type 0
IsDeletesFirst [] = Unit
IsDeletesFirst (c ∷ cs) =
    (c.op ≡ Operation.add_or_update → HaveOp Operation.add_or_update cs) × IsDeletesFirst cs

HaveOp-IsDeletesFirst :
    (ds us : List ResourceChange)
    → HaveOp Operation.delete ds
    → HaveOp Operation.add_or_update us
    → IsDeletesFirst (ds +++ us)
HaveOp-IsDeletesFirst [] [] h k = tt
HaveOp-IsDeletesFirst [] (u ∷ us) h k = (λ _. k.1, HaveOp-IsDeletesFirst [] us tt k.1)
HaveOp-IsDeletesFirst (d ∷ ds) us h k = (λ e. cc (h.0, e), HaveOp-IsDeletesFirst ds us h.1 k)

abbrev AreFiled : List ResourceChange × List ResourceChange → Type 0
AreFiled (deletes, updates) =
    HaveOp Operation.delete deletes × HaveOp Operation.add_or_update updates

file_change-AreFiled :
    (c : ResourceChange) (filed : List ResourceChange × List ResourceChange)
    → AreFiled filed
    → AreFiled (file_change c filed)
unfolding file_change
file_change-AreFiled c (ds, us) h = elim (Operation-cases c.op) [
  | inl e ↦ rw (e, file_change) ((e, h.0), h.1)
  | inr e ↦ rw (e, file_change) (h.0, (e, h.1))
]

squash_loop-AreFiled :
    (m : Map String (List ResourceChange)) (cs : List ResourceChange) → AreFiled (squash_loop m cs)
unfolding squash_loop
squash_loop-AreFiled m [] = (tt, tt)
squash_loop-AreFiled m (c ∷ cs) =
    go (lookup (change_key c) m) refl (squash_loop-AreFiled m cs)
      (squash_loop-AreFiled (remove (change_key c) m) cs)
  where
    go :
        (o : Option (List ResourceChange))
        → lookup (change_key c) m ≡ o
        → AreFiled (squash_loop m cs)
        → AreFiled (squash_loop (remove (change_key c) m) cs)
        → AreFiled (squash_loop m (c ∷ cs))
    go none e same rest = rw (e, squash_loop) same
    go (some []) e same rest = rw (e, squash_loop) rest
    go (some (d ∷ ds)) e same rest =
        rw (e, squash_loop) (file_change-AreFiled (last_change d ds) _ rest)

-- In the squashed changes no delete stands behind an update.
pub squash_resource_changes-IsDeletesFirst :
    (cs : List ResourceChange) → IsDeletesFirst (squash_resource_changes cs)
unfolding squash_resource_changes
squash_resource_changes-IsDeletesFirst cs =
    let m = group_changes [] cs in
    HaveOp-IsDeletesFirst (squash_loop m cs).0 (squash_loop m cs).1 (squash_loop-AreFiled m cs).0
      (squash_loop-AreFiled m cs).1
