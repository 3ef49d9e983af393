-- ===== src/Hosts/Holding.antt =====
-- Which resources hold which hosts in a table, and what the differences of two tables list.
use text.Mathlib.TextEquality.{eq_iff}
use ingress_nextgen.Common.{
  ==_refl, ==_true, Bool, Bool-cases, List, Option, String, [], arith, contains, contains-append,
  false, inl, inr, none, not, refl, some, string_eq, sym, true, ℕ_eq, ◌&&◌, ◌==◌, ◌∙◌, ◌∷◌, ◌≡◌,
}
use ingress_nextgen.Common.Maps.{Map, lookup}
use ingress_nextgen.Common.Keys.{is_some}
use ingress_nextgen.Resources.{
  Resource, get_key_with_kind, ingress, transport_server, virtual_server,
}
use ingress_nextgen.Hosts.Detect.{missing_from, updated_at, updated_host, updated_hosts}
use ingress_nextgen.Resources.Equality.{is_equal}
use ingress_nextgen.Changes.Effect.{holds_key}
use mathlib.Core.Bool.{or-true}
use ingress_nextgen.Resources.Same.{is_equal-get_key_with_kind, is_equal-valid_hosts}

pub contains-missing_from :
    (m : Map String Resource) (ks : List String) (h : String)
    → contains (missing_from m ks) h ≡ (contains ks h && not (is_some (lookup h m)))
unfolding missing_from contains
contains-missing_from m [] h = refl
contains-missing_from m (k ∷ ks) h = go (lookup k m) refl (contains-missing_from m ks h)
  where
    go :
        (o : Option Resource)
        → lookup k m ≡ o
        → contains (missing_from m ks) h ≡ (contains ks h && not (is_some (lookup h m)))
        → contains (missing_from m (k ∷ ks)) h ≡ (contains (k ∷ ks) h && not (is_some (lookup h m)))
    go none q ih = rw (q, missing_from) (ground (arith, ih, eq_iff k h, q))
    go (some r) q ih = rw (q, missing_from) (ground (arith, ih, eq_iff k h, q))

updated_at_self :
    (old new : Map String Resource) (h : String) {r s : Resource}
    → lookup h old ≡ some r
    → lookup h new ≡ some s
    → is_equal r s ≡ false
    → contains (updated_at old new h) h ≡ true
unfolding updated_at contains updated_host
updated_at_self old new h p q d = rw (p, updated_at) (rw q (rw d (rw (==_refl h))))

-- a host that both tables have, with resources that are not equal, is among the updated ones
pub updated_intro :
    (old new : Map String Resource) (hs : List String) (h : String) {r s : Resource}
    → lookup h old ≡ some r
    → lookup h new ≡ some s
    → is_equal r s ≡ false
    → contains hs h ≡ true
    → contains (updated_hosts old new hs) h ≡ true
unfolding contains updated_hosts
updated_intro old new [] h p q d c = c
updated_intro old new (k ∷ hs) h p q d c =
    contains-append (updated_at old new k) (updated_hosts old new hs) h
    ∙ elim (Bool-cases (k == h)) [
      | inl e ↦ rw (==_true k h e) (rw (updated_at_self old new h p q d))
      | inr n ↦
          rw (updated_intro old new hs h p q d (ground (arith, n, c)))
            (or-true (contains (updated_at old new k) h))
    ]

-- a resource with the key holds the host
abbrev pub Holds : String → Map String Resource → String → Type 0
Holds k m h = holds_key k m h ≡ true

-- a resource with the key holds some host
abbrev pub IsActive : String → Map String Resource → Type 0
IsActive k m = (h : String) × Holds k m h

-- What a resource says of the hosts that it holds: an Ingress by its valid hosts, the others by
-- their one host.
abbrev pub claims : Resource → String → Bool
claims (ingress ic) h = elim (lookup h ic.valid_hosts) [ none ↦ false | some b ↦ b ]
claims (virtual_server vsc) h = vsc.virtual_server.host == h
claims (transport_server tsc) h = tsc.transport_server.host == h

-- Each resource in the table claims the hosts that its key holds there, and no others.
abbrev pub IsTable : Map String Resource → Type 0
IsTable m =
    (h h' : String) (r : Resource)
    → lookup h m ≡ some r
    → holds_key (get_key_with_kind r) m h' ≡ claims r h'

keep_claim :
    (r s : Resource) (h h' : String)
    → is_equal r s ≡ true
    → claims r h ≡ true
    → claims s h ≡ true
    → claims r h' ≡ true
    → claims s h' ≡ true
unfolding is_equal
keep_claim (ingress ic) (ingress other) h h' same c d c' = go (lookup h' ic.valid_hosts) refl
  where
    go : (o : Option Bool) → lookup h' ic.valid_hosts ≡ o → claims (ingress other) h' ≡ true
    go none q = cc (q, c')
    go (some b) q = rw (is_equal-valid_hosts ic other h' b same q, claims) (rw (q, claims) at c')
keep_claim (virtual_server vsc) s h h' same c d c' =
    rw (sym (==_true vsc.virtual_server.host h c) ∙ ==_true vsc.virtual_server.host h' c') at d
keep_claim (transport_server tsc) s h h' same c d c' =
    rw (sym (==_true tsc.transport_server.host h c) ∙ ==_true tsc.transport_server.host h' c') at d
keep_claim (ingress ic) _ h h' same c d c' = cc

pub at_holder :
    (m : Map String Resource) (h : String) {r : Resource}
    → lookup h m ≡ some r
    → Holds (get_key_with_kind r) m h
at_holder m h {r} q = rw (q, holds_key) (==_refl (get_key_with_kind r))

-- An unchanged resource has kept every host that it had.
pub keeps_hosts :
    (old new : Map String Resource) (h h' : String) (r s : Resource)
    → IsTable old
    → IsTable new
    → lookup h old ≡ some r
    → lookup h new ≡ some s
    → is_equal r s ≡ true
    → Holds (get_key_with_kind r) old h'
    → Holds (get_key_with_kind r) new h'
keeps_hosts old new h h' r s told tnew was now same had =
    let c : claims r h ≡ true = sym (told h h r was) ∙ at_holder old h was in
    let d : claims s h ≡ true = sym (tnew h h s now) ∙ at_holder new h now in
    let c' : claims r h' ≡ true = sym (told h h' r was) ∙ had in
    rw (is_equal-get_key_with_kind r s same) (tnew h h' s now ∙ keep_claim r s h h' same c d c')

-- the resource that a host has, from the test
pub holder_with :
    (k : String) (m : Map String Resource) (h : String)
    → Holds k m h
    → (r : Resource) × (lookup h m ≡ some r) × (get_key_with_kind r ≡ k)
holder_with k m h t = go (lookup h m) refl
  where
    go :
        (o : Option Resource)
        → lookup h m ≡ o
        → (r : Resource) × (lookup h m ≡ some r) × (get_key_with_kind r ≡ k)
    go none q = cc (rw (q, holds_key) at t)
    go (some r) q = (r, q, ==_true (get_key_with_kind r) k (rw (q, holds_key) at t))
