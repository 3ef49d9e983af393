-- ===== src/Hosts/Resolved.antt =====
-- What the table by itself has at a host.
use ingress_nextgen.Common.{
  Bool-cases, Option, String, [], false, if◌then◌else◌, inl, inr, none, refl, some, string_eq, sym,
  true, ℕ_eq, ◌+++◌, ◌==◌, ◌>>=◌, ◌∙◌, ◌∷◌, ◌≡◌,
}
use ingress_nextgen.Common.Maps.{Map, lookup}
use ingress_nextgen.Resources.{Resource}
use ingress_nextgen.Hosts.{Building, holder_of, resolve, resolve_entries, resolve_entry}

abbrev held_by : Building → Option String → Option Resource
held_by b none = none
held_by b (some k) = lookup k b.resources

resolve_entries_lem :
    (b : Building) (es : Map String String) (h : String)
    → ((k : String) → lookup h es ≡ some k → (r : Resource) × (lookup k b.resources ≡ some r))
    → lookup h (resolve_entries b es) ≡ held_by b (lookup h es)
unfolding resolve_entries resolve_entry lookup
resolve_entries_lem b [] h there = refl
resolve_entries_lem b ((j, k) ∷ es) h there = elim (Bool-cases (j == h)) [
  | inl t ↦ found (lookup k b.resources) refl t (there k (rw t refl))
  | inr n ↦ skip (lookup k b.resources) n (resolve_entries_lem b es h (λ x q. there x (rw n q)))
]
  where
    found :
        (v : Option Resource)
        → lookup k b.resources ≡ v
        → (j == h) ≡ true
        → (r : Resource) × (lookup k b.resources ≡ some r)
        → lookup h (
            elim v as (λ _. Map String Resource) [ none ↦ [] | some r ↦ (j, r) ∷ [] ]
            +++ resolve_entries b es)
          ≡ held_by b (if j == h then some k else lookup h es)
    found none q t (r, p) = cc (q, p)
    found (some r) q t held = rw t (sym q)

    skip :
        (v : Option Resource)
        → (j == h) ≡ false
        → lookup h (resolve_entries b es) ≡ held_by b (lookup h es)
        → lookup h (
            elim v as (λ _. Map String Resource) [ none ↦ [] | some r ↦ (j, r) ∷ [] ]
            +++ resolve_entries b es)
          ≡ held_by b (if j == h then some k else lookup h es)
    skip none n e = rw n e
    skip (some r) n e = rw n e

-- It has the resource of the holder, where every holder has one.
pub lookup-resolve :
    (b : Building) (h : String)
    → ((k : String)
        → lookup h b.holders ≡ some k
        → (r : Resource) × (lookup k b.resources ≡ some r))
    → lookup h (resolve b) ≡ holder_of b h
unfolding resolve holder_of
lookup-resolve b h there = resolve_entries_lem b b.holders h there ∙ same (lookup h b.holders)
  where
    same : (v : Option String) → held_by b v ≡ (v >>= (λ k. lookup k b.resources))
    same none = refl
    same (some k) = refl
