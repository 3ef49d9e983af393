-- ===== src/Hosts/Applied.antt =====
-- Carrying out the changes of a rebuild leaves configured the resources that hold a host.
use mathlib.Core.Bool.{or-true}
use ingress_nextgen.Common.{
  Bool, Bool-cases, List, Option, String, and-eq-true, any, ap, arith, contains, false,
  if◌then◌else◌, inl, inr, none, not, refl, some, string_eq, sym, true, ℕ_eq, ◌&&◌, ◌||◌, ◌↔◌, ◌∙◌,
  ◌≡◌,
}
use ingress_nextgen.Common.Maps.{Map, lookup, sorted_keys}
use ingress_nextgen.Common.Keys.{any_elim, any_intro, contains-sorted_keys, is_some}
use ingress_nextgen.Resources.{Resource, get_key_with_kind}
use ingress_nextgen.Resources.Equality.{is_equal}
use ingress_nextgen.Changes.{Operation, create_resource_changes_for_hosts, final_op}
use ingress_nextgen.Changes.Squash.{final_op-squash_resource_changes, or_else}
use ingress_nextgen.Changes.Effect.{final_op-create_resource_changes, hands_over, holds_key}
use ingress_nextgen.Hosts.Detect.{
  detect_changes_in_hosts, host_changes, missing_from, updated_hosts,
}
use ingress_nextgen.Hosts.Holding.{
  Holds, IsActive, IsTable, at_holder, contains-missing_from, holder_with, keeps_hosts,
  updated_intro,
}
use ingress_nextgen.Resources.Same.{is_equal-get_key_with_kind}

-- Whether the resource is configured, when changes are carried out over a table.
abbrev pub IsConfigured : String → Map String Resource → Option Operation → Type 0
IsConfigured k old none = IsActive k old
IsConfigured k old (some Operation.delete) = ⊥
IsConfigured k old (some Operation.add_or_update) = Unit

listed :
    (m : Map String Resource) (h : String) {r : Resource}
    → lookup h m ≡ some r
    → contains (sorted_keys m) h ≡ true
listed m h q = contains-sorted_keys h m ∙ ap is_some q

not-eq-true : (b : Bool) → not b ≡ true → b ≡ false
not-eq-true b h = ground arith

missing_holds :
    (k : String) (m : Map String Resource) (hs : List String) (h : String)
    → contains (missing_from m hs) h ≡ true
    → holds_key k m h ≡ false
missing_holds k m hs h c = go (lookup h m) refl
  where
    go : (o : Option Resource) → lookup h m ≡ o → holds_key k m h ≡ false
    go none q = rw (q, holds_key)
    go (some r) q =
        let t = and-eq-true (contains hs h) _ (sym (contains-missing_from m hs h) ∙ c) in
        cc (rw q at t.1)

-- the four tests that decide the fate of a resource
module _ (k : String) (old new : Map String Resource) where
  abbrev is_updated : Bool
  is_updated =
      any (holds_key k new) (updated_hosts old new (sorted_keys new))
      || any (holds_key k new) (missing_from old (sorted_keys new))

  abbrev is_deleted : Bool
  is_deleted =
      any (holds_key k old) (missing_from new (sorted_keys old))
      || any (hands_over k old new) (updated_hosts old new (sorted_keys new))

  final_op-host_changes :
      final_op k (host_changes old new)
      ≡ or_else
          (if is_updated then some Operation.add_or_update else none)
          (if is_deleted then some Operation.delete else none)
  unfolding host_changes detect_changes_in_hosts create_resource_changes_for_hosts
  final_op-host_changes =
      final_op-squash_resource_changes k _
      ∙ final_op-create_resource_changes k (missing_from new (sorted_keys old))
          (updated_hosts old new (sorted_keys new)) (missing_from old (sorted_keys new)) old new

  is_updated-IsActive : is_updated ≡ true → IsActive k new
  is_updated-IsActive h =
      elim (Bool-cases (any (holds_key k new) (missing_from old (sorted_keys new)))) [
        | inl a ↦ (let (host, m, t) = any_elim (holds_key k new) _ a in (host, t))
        | inr n ↦
            (let (host, m, t) =
                any_elim (holds_key k new) (updated_hosts old new (sorted_keys new))
                  (ground (arith, h, n)) in
              (host, t))
      ]

  -- a resource to delete has lost a host
  is_deleted-lost : is_deleted ≡ true → (h : String) × Holds k old h × (holds_key k new h ≡ false)
  is_deleted-lost h =
      elim (Bool-cases (any (hands_over k old new) (updated_hosts old new (sorted_keys new)))) [
        | inl a ↦
            (let (host, m, t) = any_elim (hands_over k old new) _ a in
              let both = and-eq-true (holds_key k old host && is_some (lookup host new)) _ t in
              (
                host,
                (and-eq-true (holds_key k old host) _ both.0).0,
                not-eq-true (holds_key k new host) both.1,
              ))
        | inr n ↦
            (let (host, m, t) =
                any_elim (holds_key k old) (missing_from new (sorted_keys old))
                  (ground (arith, h, n)) in
              (host, t, missing_holds k new (sorted_keys old) host m))
      ]

  is_updated_added : (h : String) → lookup h old ≡ none → Holds k new h → is_updated ≡ true
  is_updated_added h gone t =
      let (s, now, same) = holder_with k new h t in
      rw
        (any_intro (holds_key k new) (missing_from old (sorted_keys new)) h
          (contains-missing_from old (sorted_keys new) h ∙ rw (listed new h now) (rw gone)) t)
        (or-true (any (holds_key k new) (updated_hosts old new (sorted_keys new))))

  is_updated_changed :
      (h : String) {r s : Resource}
      → lookup h old ≡ some r
      → lookup h new ≡ some s
      → is_equal r s ≡ false
      → Holds k new h
      → is_updated ≡ true
  is_updated_changed h was now d t = rw (
      any_intro (holds_key k new) (updated_hosts old new (sorted_keys new)) h
        (updated_intro old new (sorted_keys new) h was now d (listed new h now)) t)

  is_deleted_removed : (h : String) → lookup h new ≡ none → Holds k old h → is_deleted ≡ true
  is_deleted_removed h gone t =
      let (r, was, same) = holder_with k old h t in
      rw (
        any_intro (holds_key k old) (missing_from new (sorted_keys old)) h
          (contains-missing_from new (sorted_keys old) h ∙ rw (listed old h was) (rw gone)) t)

  is_deleted_changed :
      (h : String) {r s : Resource}
      → lookup h old ≡ some r
      → lookup h new ≡ some s
      → is_equal r s ≡ false
      → Holds k old h
      → holds_key k new h ≡ false
      → is_deleted ≡ true
  is_deleted_changed h was now d t f =
      rw
        (any_intro (hands_over k old new) (updated_hosts old new (sorted_keys new)) h
          (updated_intro old new (sorted_keys new) h was now d (listed new h now)) (rw (t, f, now)))
        (or-true (any (holds_key k old) (missing_from new (sorted_keys old))))

-- the operation that the two tests decide
abbrev decided : Bool → Bool → Option Operation
decided updated deleted =
    or_else (if updated then some Operation.add_or_update else none)
      (if deleted then some Operation.delete else none)

module _ (k : String) (old new : Map String Resource) where
  -- a resource that is neither updated nor deleted, and was active, is active
  stays-IsActive :
      is_updated k old new ≡ false → is_deleted k old new ≡ false → IsActive k old → IsActive k new
  stays-IsActive u d (h, t) =
      let (r, was, same) = holder_with k old h t in go r was same (lookup h new) refl
    where
      go :
          (r : Resource)
          → lookup h old ≡ some r
          → get_key_with_kind r ≡ k
          → (o : Option Resource) → lookup h new ≡ o
          → IsActive k new
      go r was same none now = cc (is_deleted_removed k old new h now t, d)
      go r was same (some s) now = elim (Bool-cases (holds_key k new h)) [
        | inl t' ↦ (h, t')
        | inr f ↦ elim (Bool-cases (is_equal r s)) [
          | inl e ↦ (h, rw (← same, is_equal-get_key_with_kind r s e) (at_holder new h now))
          | inr ne ↦ cc (is_deleted_changed k old new h was now ne t f, d)
        ]
      ]

  -- an active resource that is not updated was active, and has not lost a host
  was-IsActive :
      IsTable old
      → IsTable new
      → is_updated k old new ≡ false
      → IsActive k new
      → IsActive k old × (is_deleted k old new ≡ false)
  was-IsActive told tnew u (h, t) =
      let (s, now, same) = holder_with k new h t in go s now same (lookup h old) refl
    where
      go :
          (s : Resource)
          → lookup h new ≡ some s
          → get_key_with_kind s ≡ k
          → (o : Option Resource) → lookup h old ≡ o
          → IsActive k old × (is_deleted k old new ≡ false)
      go s now same none was = cc (is_updated_added k old new h was t, u)
      go s now same (some r) was = elim (Bool-cases (is_equal r s)) [
        | inr ne ↦ cc (is_updated_changed k old new h was now ne t, u)
        | inl e ↦
            (let key : get_key_with_kind r ≡ k = is_equal-get_key_with_kind r s e ∙ same in
              (
                (h, rw key at (at_holder old h was)),
                elim (Bool-cases (is_deleted k old new)) [
                  | inr no_loss ↦ no_loss
                  | inl loss ↦
                      (let (h', had, lost) = is_deleted-lost k old new loss in
                        cc (
                          keeps_hosts old new h h' r s told tnew was now e (rw (← key) at had),
                          lost,
                          key,
                        ))
                ],
              ))
      ]

-- If in both tables each resource claims the hosts that its key holds there: after the changes from the
-- old table to the new one are carried out over what the old one had configured, exactly the resources
-- that hold a host in the new table are configured.
pub host_changes_lem :
    (old new : Map String Resource) (k : String)
    → IsTable old
    → IsTable new
    → IsConfigured k old (final_op k (host_changes old new)) ↔ IsActive k new
host_changes_lem old new k told tnew =
    rw (final_op-host_changes k old new)
      (go (is_updated k old new) (is_deleted k old new) refl refl)
  where
    go :
        (u d : Bool)
        → is_updated k old new ≡ u
        → is_deleted k old new ≡ d
        → IsConfigured k old (decided u d) ↔ IsActive k new
    go true d e f = (λ _. is_updated-IsActive k old new e, λ _. tt)
    go false true e f = (λ h. absurd h, λ a. cc ((was-IsActive k old new told tnew e a).1, f))
    go false false e f =
        (λ a. stays-IsActive k old new e f a, λ a. (was-IsActive k old new told tnew e a).0)
