-- ===== src/Minions/Updated.antt =====
-- updateMinionIndex keeps the index of the minions consistent with the stored Ingresses.
use ingress_nextgen.Common.{
  ==_true, Bool, Bool-cases, Option, String, [], arith, false, if◌then◌else◌, inl, inr, none, refl,
  some, string_eq, sym, true, ℕ_eq, ◌==◌, ◌∙◌, ◌≡◌,
}
use ingress_nextgen.Common.Maps.{
  IsMap, Map, insert, insert-IsMap, lookup, lookup-insert, lookup-remove,
}
use ingress_nextgen.Objects.{Ingress}
use ingress_nextgen.Minions.Index.{
  MinionIndex, index_host, marked, remove_minion_from_index, update_minion_index,
}
use ingress_nextgen.Minions.Consistent.{
  IsConsistent, in_index, is_host, is_host_if, remove_minion_from_index-IsConsistent,
}

marked-insert :
    (key k : String) (ks : Map String Bool)
    → marked k (insert key true ks) ≡ (if key == k then true else marked k ks)
marked-insert key k ks = ground (arith, lookup-insert key k true ks)

abbrev keys_at : String → MinionIndex → Map String Bool
keys_at host index = elim (lookup host index) [ none ↦ [] | some ks ↦ ks ]

marked-keys_at :
    (host k : String) (index : MinionIndex) → marked k (keys_at host index) ≡ in_index host k index
unfolding lookup
marked-keys_at host k index = go (lookup host index) refl
  where
    go :
        (o : Option (Map String Bool))
        → lookup host index ≡ o
        → marked k (keys_at host index) ≡ in_index host k index
    go none q = rw (q, keys_at, in_index) refl
    go (some ks) q = rw (q, keys_at, in_index) refl

in_index-insert :
    (h k key host : String) (index : MinionIndex)
    → in_index h k (insert host (insert key true (keys_at host index)) index)
      ≡ (if host == h then (if key == k then true else in_index h k index) else in_index h k index)
in_index-insert h k key host index = elim (Bool-cases (host == h)) [
  | inl t ↦
      rw (lookup-insert host h (insert key true (keys_at host index)) index, in_index)
        (rw t (
          rw (marked-insert key k (keys_at host index))
            (rw (marked-keys_at host k index) (rw (==_true host h t) refl))))
  | inr n ↦
      rw (lookup-insert host h (insert key true (keys_at host index)) index, in_index) (rw n refl)
]

-- the entry for the key, under the host that its Ingress has, if it has one
abbrev place : String → Option String → MinionIndex → MinionIndex
place key none index = index
place key (some host) index = insert host (insert key true (keys_at host index)) index

stored :
    (at_host is_key w : Bool)
    → (if at_host
        then (if is_key then true else (if is_key then false else w))
        else (if is_key then false else w))
      ≡ (if is_key then at_host else w)
stored true true w = refl
stored true false w = refl
stored false true w = refl
stored false false w = refl

in_index-place :
    (h k key : String) (o : Option String) (index : MinionIndex) (w : Bool)
    → in_index h k index ≡ (if key == k then false else w)
    → in_index h k (place key o index) ≡ (if key == k then is_host h o else w)
in_index-place h k key none index w e = e
in_index-place h k key (some host) index w e =
    in_index-insert h k key host index ∙ (rw e (stored (host == h) (key == k) w))

place-IsMap :
    (key : String) (o : Option String) (index : MinionIndex)
    → IsMap index
    → IsMap (place key o index)
place-IsMap key none index one = one
place-IsMap key (some host) index one =
    insert-IsMap host (insert key true (keys_at host index)) index one

update_minion_index-place :
    (key : String) (ing : Ingress) (index : MinionIndex)
    → update_minion_index key (some ing) index
      ≡ place key (index_host (some ing)) (remove_minion_from_index key index)
unfolding update_minion_index
update_minion_index-place key ing index = go (index_host (some ing))
  where
    go :
        (o : Option String)
        → elim o [
          | none ↦ remove_minion_from_index key index
          | some host ↦
              insert host
                (insert key true (keys_at host (remove_minion_from_index key index)))
                (remove_minion_from_index key index)
        ]
          ≡ place key o (remove_minion_from_index key index)
    go none = refl
    go (some host) = refl

-- Storing an Ingress and updating the index for its key keeps a consistent index of minions consistent
-- with the stored Ingresses.
pub update_minion_index-IsConsistent :
    (key : String) (ing : Ingress) (index : MinionIndex) (ingresses : Map String Ingress)
    → IsConsistent index ingresses
    → IsConsistent (update_minion_index key (some ing) index) (insert key ing ingresses)
unfolding index_host
update_minion_index-IsConsistent key ing index ingresses i =
    let index' = remove_minion_from_index key index in
    let j = remove_minion_from_index-IsConsistent key index ingresses i in
    rw (update_minion_index-place key ing index) (record {
      one_entry = place-IsMap key (index_host (some ing)) index' j.one_entry;
      agrees = λ h k.
          in_index-place h k key (index_host (some ing)) index'
            (is_host h (index_host (lookup k ingresses)))
            (j.agrees h k
              ∙ (rw (lookup-remove key k ingresses)
                  (is_host_if h (key == k) none (lookup k ingresses))))
          ∙ (rw (lookup-insert key k ing ingresses)
              (sym (is_host_if h (key == k) (some ing) (lookup k ingresses))));
    })
