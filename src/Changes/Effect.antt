-- ===== src/Changes/Effect.antt =====
-- What the changes that are made from lists of hosts do to a resource.
use mathlib.Core.Path.{ap₂}
use text.Mathlib.TextEquality.{eq_iff}
use ingress_nextgen.Common.{
  Bool, Eq, List, Option, String, [], any, arith, false, if◌then◌else◌, none, not, refl, some,
  string_eq, true, ℕ_eq, ◌&&◌, ◌+++◌, ◌==◌, ◌||◌, ◌∙◌, ◌∷◌, ◌≡◌,
}
use ingress_nextgen.Common.Maps.{Map, lookup}
use ingress_nextgen.Common.Keys.{is_some}
use ingress_nextgen.Resources.{Resource, get_key_with_kind}
use ingress_nextgen.Changes.{
  Operation, ResourceChange, change, changes_at, changes_for, create_resource_changes, final_op,
  handover_deletes,
}
use ingress_nextgen.Changes.Squash.{final_op-append, or_else}

or_else-if :
    (op : Operation) (a b : Bool)
    → or_else (if b then some op else none) (if a then some op else none)
      ≡ (if a || b then some op else none)
or_else-if op true true = refl
or_else-if op true false = refl
or_else-if op false true = refl
or_else-if op false false = refl

module _ {K : Type 0} ⦃e : Eq K⦄ where
  -- the table has a resource with the key at the host
  abbrev pub holds_key : String → Map K Resource → K → Bool
  holds_key k m h = elim (lookup h m) [ none ↦ false | some r ↦ get_key_with_kind r == k ]

  -- the resource with the key had the host, and another one has it now
  abbrev pub hands_over : String → Map K Resource → Map K Resource → K → Bool
  hands_over k old new h = holds_key k old h && is_some (lookup h new) && not (holds_key k new h)

  at_host :
      (k : String) (op : Operation) (m : Map K Resource) (h : K)
      → final_op k (changes_at m h (λ r. change op r ∷ []))
        ≡ (if holds_key k m h then some op else none)
  at_host k op m h = go (lookup h m) refl
    where
      go :
          (o : Option Resource)
          → lookup h m ≡ o
          → final_op k (changes_at m h (λ r. change op r ∷ []))
            ≡ (if holds_key k m h then some op else none)
      go none q = rw (q, changes_at, holds_key)
      go (some r) q = rw (q, changes_at, holds_key)

  pub final_op-changes_for :
      (k : String) (op : Operation) (m : Map K Resource) (hs : List K)
      → final_op k (changes_for op m hs) ≡ (if any (holds_key k m) hs then some op else none)
  unfolding changes_for
  final_op-changes_for k op m [] = refl
  final_op-changes_for k op m (h ∷ hs) =
      final_op-append k (changes_at m h (λ r. change op r ∷ [])) (changes_for op m hs)
      ∙ (ap₂ or_else (final_op-changes_for k op m hs) (at_host k op m h)
          ∙ or_else-if op (holds_key k m h) (any (holds_key k m) hs))

  abbrev pub handover : Map K Resource → Map K Resource → K → List ResourceChange
  handover old new h = changes_at old h (λ r. changes_at new h (λ s.
      if get_key_with_kind r == get_key_with_kind s then [] else change Operation.delete r ∷ []))

  at_handover :
      (k : String) (old new : Map K Resource) (h : K)
      → final_op k (handover old new h)
        ≡ (if hands_over k old new h then some Operation.delete else none)
  at_handover k old new h = go (lookup h old) (lookup h new) refl refl
    where
      go :
          (o n : Option Resource)
          → lookup h old ≡ o
          → lookup h new ≡ n
          → final_op k (handover old new h)
            ≡ (if hands_over k old new h then some Operation.delete else none)
      go none n q p = rw (q, handover, changes_at, holds_key, hands_over)
      go (some r) none q p = rw (q, handover, changes_at, holds_key, hands_over, p) (ground arith)
      go (some r) (some s) q p =
          rw (q, handover, changes_at, holds_key, hands_over, p)
            (ground (
              arith,
              eq_iff (get_key_with_kind r) (get_key_with_kind s),
              eq_iff (get_key_with_kind r) k,
              eq_iff (get_key_with_kind s) k,
            ))

  pub final_op-handover_deletes :
      (k : String) (old new : Map K Resource) (hs : List K)
      → final_op k (handover_deletes old new hs)
        ≡ (if any (hands_over k old new) hs then some Operation.delete else none)
  unfolding handover_deletes
  final_op-handover_deletes k old new [] = refl
  final_op-handover_deletes k old new (h ∷ hs) =
      final_op-append k (handover old new h) (handover_deletes old new hs)
      ∙ (ap₂ or_else (final_op-handover_deletes k old new hs) (at_handover k old new h)
          ∙ or_else-if Operation.delete (hands_over k old new h) (any (hands_over k old new) hs))

  -- An update wins over the deletes, since it comes behind them.
  pub final_op-create_resource_changes :
      (k : String) (removed updated added : List K) (old new : Map K Resource)
      → final_op k (create_resource_changes removed updated added old new)
        ≡ or_else
            (if any (holds_key k new) updated || any (holds_key k new) added
              then some Operation.add_or_update
              else none)
            (if any (holds_key k old) removed || any (hands_over k old new) updated
              then some Operation.delete
              else none)
  unfolding create_resource_changes
  final_op-create_resource_changes k removed updated added old new =
      final_op-append k
        (changes_for Operation.delete old removed +++ handover_deletes old new updated)
        (changes_for Operation.add_or_update new updated
          +++ changes_for Operation.add_or_update new added)
      ∙ ap₂ or_else
          (final_op-append k (changes_for Operation.add_or_update new updated)
              (changes_for Operation.add_or_update new added)
            ∙ (ap₂ or_else (final_op-changes_for k Operation.add_or_update new added)
                  (final_op-changes_for k Operation.add_or_update new updated)
                ∙ or_else-if Operation.add_or_update (any (holds_key k new) updated)
                    (any (holds_key k new) added)))
          (final_op-append k (changes_for Operation.delete old removed)
              (handover_deletes old new updated)
            ∙ (ap₂ or_else (final_op-handover_deletes k old new updated)
                  (final_op-changes_for k Operation.delete old removed)
                ∙ or_else-if Operation.delete (any (holds_key k old) removed)
                    (any (hands_over k old new) updated)))
