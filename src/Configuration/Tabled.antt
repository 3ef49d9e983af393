-- ===== src/Configuration/Tabled.antt =====
-- The table that a rebuild stores: each resource in it claims the hosts that its key holds.
use mathlib.Core.Option.{some-injective}
use mathlib.Core.Path.{subst}
use ingress_nextgen.Common.{
  ==_true, >>=-eq-some, Bool-cases, Option, String, [], ap, inl, inr, none, refl, some, string_eq,
  sym, ℕ_eq, ◌==◌, ◌∙◌, ◌∷◌, ◌≡◌,
}
use ingress_nextgen.Common.Maps.{Map, insert, lookup, lookup-insert}
use ingress_nextgen.Objects.{GlobalConfiguration, Listener, VirtualServerListener}
use ingress_nextgen.Resources.{
  Resource, add_warning, get_key_with_kind, ingress, transport_server, virtual_server,
}
use ingress_nextgen.Hosts.{Building}
use ingress_nextgen.Hosts.Owned.{IsOwned, Profile, flags_of, profile_at}
use ingress_nextgen.Hosts.Holding.{claims}
use ingress_nextgen.Configuration.Reports.{
  listener_problem_text, update_active_hosts_for_ingresses, warn_holder, warn_virtual_server,
  warn_virtual_servers, with_valid_hosts, with_valid_hosts_all,
}
use ingress_nextgen.Configuration.Active.{is_holder, with_valid_hosts_lem}

-- Every holder has its resource, every resource its own key, and what it claims it holds.
pub record IsTabled (b : Building) : Type 0 where
  pub own_key :
      (k : String) (r : Resource) → lookup k b.resources ≡ some r → get_key_with_kind r ≡ k
  pub present :
      (h k : String)
      → lookup h b.holders ≡ some k
      → (r : Resource) × (lookup k b.resources ≡ some r)
  pub agree :
      (h h' k : String) (r : Resource)
      → lookup h b.holders ≡ some k
      → lookup k b.resources ≡ some r
      → claims r h' ≡ is_holder b k h'

flagged :
    (b : Building) (m m' : Map String Resource) (k : String) (r' : Resource)
    → with_valid_hosts_all b m ≡ some m'
    → lookup k m' ≡ some r'
    → (r : Resource) × (lookup k m ≡ some r) × (with_valid_hosts b r ≡ some r')
unfolding with_valid_hosts_all lookup
flagged b [] m' k r' e p = cc (subst (λ x. lookup k x ≡ some r') (sym (some-injective _ _ e)) p)
flagged b ((j, r) ∷ m) m' k r' e p =
    let (s, q, e1) = >>=-eq-some (with_valid_hosts b r) _ e in
    let (rest, q1, e2) = >>=-eq-some (with_valid_hosts_all b m) _ e1 in
    let p1 : lookup k ((j, s) ∷ rest) ≡ some r' =
      subst (λ x. lookup k x ≡ some r') (sym (some-injective _ _ e2)) p in
    elim (Bool-cases (j == k)) [
      | inl t ↦ (r, rw t refl, q ∙ (rw t at p1))
      | inr n ↦ (let (x, a, c) = flagged b m rest k r' q1 (rw n at p1) in (x, rw n a, c))
    ]

flagged_present :
    (b : Building) (m m' : Map String Resource) (k : String) (r : Resource)
    → with_valid_hosts_all b m ≡ some m'
    → lookup k m ≡ some r
    → (r' : Resource) × (lookup k m' ≡ some r')
unfolding with_valid_hosts_all lookup
flagged_present b [] m' k r e p = cc p
flagged_present b ((j, s) ∷ m) m' k r e p =
    let (s', q, e1) = >>=-eq-some (with_valid_hosts b s) _ e in
    let (rest, q1, e2) = >>=-eq-some (with_valid_hosts_all b m) _ e1 in
    subst (λ x. (r' : Resource) × (lookup k x ≡ some r')) (some-injective _ _ e2)
      (elim (Bool-cases (j == k)) [
        | inl t ↦ (s', rw t refl)
        | inr n ↦ (let (x, a) = flagged_present b m rest k r q1 (rw n at p) in (x, rw n a))
      ])

-- Setting the flags of the Ingresses makes an owned table agree with what its resources claim.
pub update_active_hosts-IsTabled :
    (b a : Building)
    → IsOwned b
    → ((k : String) (r : Resource) → lookup k b.resources ≡ some r → flags_of r ≡ [])
    → update_active_hosts_for_ingresses b ≡ some a
    → IsTabled a
unfolding update_active_hosts_for_ingresses
update_active_hosts-IsTabled b a o fresh e =
    let (rs, p, e1) = >>=-eq-some (with_valid_hosts_all b b.resources) _ e in
    subst IsTabled (some-injective _ _ e1) (record {
      own_key = λ k r q.
          let (r0, q0, f) = flagged b b.resources rs k r p q in
          (with_valid_hosts_lem b k r0 r o q0 (fresh k r0 q0) f).0;
      present = λ h k q. let (x, at_k, c) = o.owned h k q in there k x at_k rs p;
      agree = λ h h' k r q s.
          let (r0, q0, f) = flagged b b.resources rs k r p s in
          (with_valid_hosts_lem b k r0 r o q0 (fresh k r0 q0) f).1 h h' q;
    })
  where
    there :
        (k : String) (x : Profile)
        → profile_at k b.resources ≡ some x
        → (rs : Map String Resource) → with_valid_hosts_all b b.resources ≡ some rs
        → (r : Resource) × (lookup k rs ≡ some r)
    there k x at_k rs p = go (lookup k b.resources) refl
      where
        go :
            (v : Option Resource)
            → lookup k b.resources ≡ v
            → (r : Resource) × (lookup k rs ≡ some r)
        go none q = cc (rw (q, profile_at) at at_k)
        go (some r) q = flagged_present b b.resources rs k r p q

add_warning-claims : (r : Resource) (w h : String) → claims (add_warning r w) h ≡ claims r h
unfolding add_warning
add_warning-claims (ingress ic) w h = refl
add_warning-claims (virtual_server vsc) w h = refl
add_warning-claims (transport_server tsc) w h = refl

add_warning-get_key_with_kind :
    (r : Resource) (w : String) → get_key_with_kind (add_warning r w) ≡ get_key_with_kind r
unfolding add_warning get_key_with_kind
add_warning-get_key_with_kind (ingress ic) w = refl
add_warning-get_key_with_kind (virtual_server vsc) w = refl
add_warning-get_key_with_kind (transport_server tsc) w = refl

-- A warning keeps a table agreeing.
pub warned-IsTabled :
    (b : Building) (k : String) (r : Resource) (w : String)
    → lookup k b.resources ≡ some r
    → IsTabled b
    → IsTabled (record b { resources = insert k (add_warning r w) b.resources })
warned-IsTabled b k r w at_k t = record {
  own_key = λ j s q. let (s0, q0, e, f) = before j s q in e ∙ t.own_key j s0 q0;
  present = λ h j q.
      let (s, p) = t.present h j q in
      elim (Bool-cases (k == j)) [
        | inl m ↦
            (add_warning r w, rw (lookup-insert k j (add_warning r w) b.resources) (rw m refl))
        | inr n ↦ (s, rw (lookup-insert k j (add_warning r w) b.resources) (rw n p))
      ];
  agree = λ h h' j s q p. let (s0, q0, e, f) = before j s p in f h' ∙ t.agree h h' j s0 q q0;
}
  where
    before :
        (j : String) (s : Resource)
        → lookup j (insert k (add_warning r w) b.resources) ≡ some s
        → (s0 : Resource) × (lookup j b.resources ≡ some s0)
          × (get_key_with_kind s ≡ get_key_with_kind s0)
          × ((h : String) → claims s h ≡ claims s0 h)
    before j s q = elim (Bool-cases (k == j)) [
      | inl m ↦
          (let e : add_warning r w ≡ s =
              some-injective _ _ (rw (lookup-insert k j (add_warning r w) b.resources, m) at q) in
            (
              r,
              rw (← ==_true k j m) at_k,
              ap get_key_with_kind (sym e) ∙ add_warning-get_key_with_kind r w,
              λ h. ap (λ x. claims x h) (sym e) ∙ add_warning-claims r w h,
            ))
      | inr n ↦ (s, rw (lookup-insert k j (add_warning r w) b.resources, n) at q, refl, λ h. refl)
    ]

-- What a warning to any resource keeps, the warnings about listeners keep.
module _ (P : Building → Type 0)
    (warn : (b : Building) (k : String) (r : Resource) (w : String)
      → lookup k b.resources ≡ some r
      → P b
      → P (record b { resources = insert k (add_warning r w) b.resources })) where
  warn_virtual_server_lem :
      (gc : Option GlobalConfiguration) (lm : Map String Listener) (r : Resource) (b w : Building)
      → warn_virtual_server gc lm r b ≡ some w
      → P b
      → P w
  unfolding warn_virtual_server warn_holder
  warn_virtual_server_lem gc lm (virtual_server vsc) b w e t = go vsc.virtual_server.listener e
    where
      go :
          (l : Option VirtualServerListener)
          → elim l as (λ _. Option Building) [
            | none ↦ some b
            | some l ↦ elim (listener_problem_text gc lm l) [
              | none ↦ some b
              | some x ↦ warn_holder vsc.virtual_server.host x b
            ]
          ]
            ≡ some w
          → P w
      go none e = subst P (some-injective _ _ e) t
      go (some l) e = text (listener_problem_text gc lm l) e
        where
          text :
              (v : Option String)
              → elim v as (λ _. Option Building) [
                | none ↦ some b
                | some x ↦ warn_holder vsc.virtual_server.host x b
              ]
                ≡ some w
              → P w
          text none e = subst P (some-injective _ _ e) t
          text (some x) e =
              let (k, p, e1) = >>=-eq-some (lookup vsc.virtual_server.host b.holders) _ e in
              let (s, q, e2) = >>=-eq-some (lookup k b.resources) _ e1 in
              subst P (some-injective _ _ e2) (warn b k s x q t)
  warn_virtual_server_lem gc lm (ingress ic) b w e t = subst P (some-injective _ _ e) t
  warn_virtual_server_lem gc lm (transport_server tsc) b w e t = subst P (some-injective _ _ e) t

  pub warn_virtual_servers_lem :
      (gc : Option GlobalConfiguration) (lm : Map String Listener) (m : Map String Resource)
      (b w : Building)
      → warn_virtual_servers gc lm m b ≡ some w
      → P b
      → P w
  unfolding warn_virtual_servers
  warn_virtual_servers_lem gc lm [] b w e t = subst P (some-injective _ _ e) t
  warn_virtual_servers_lem gc lm ((k, r) ∷ m) b w e t =
      let (b1, p, e1) = >>=-eq-some (warn_virtual_server gc lm r b) _ e in
      warn_virtual_servers_lem gc lm m b1 w e1 (warn_virtual_server_lem gc lm r b b1 p t)
