-- ===== src/Configuration/Listening.antt =====
-- The listeners of the GlobalConfiguration that the configuration stores, when it is made with the
-- validator of GlobalConfigurations (pkg/apis/configuration/validation/globalconfiguration.go).
use mathlib.Core.Path.{subst}
use mathlib.Core.List.Memᴰ
use ingress_nextgen.Common.{
  ==_true, Bool-cases, List, Memᴰ, Option, String, [], ap, inl, inr, refl, some, string_eq, sym,
  ℕ_eq, ◌==◌, ◌∙◌, ◌∷◌, ◌≡◌,
}
use ingress_nextgen.Common.Maps.{Map, insert, lookup, lookup-insert, lookup-insert_self}
use ingress_nextgen.Objects.{Listener}
use ingress_nextgen.Environment.{Environment}
use ingress_nextgen.Validation.{Checks, FieldError, validate_global_configuration}
use ingress_nextgen.Validation.Compatible.{AllCompatible, CompatibleWithAll}
use ingress_nextgen.Configuration.{Configuration, new_configuration}
use ingress_nextgen.Configuration.Operations.{
  drop_ingress, ingress_error, listener_map_of, listeners_of, set_global_configuration,
  store_ingress, transport_server_error, virtual_server_error, virtual_server_route_error,
}
use ingress_nextgen.Configuration.Stored.{step-IsRebuilt, stored_after}
use ingress_nextgen.Configuration.Invariant.{admit-elim, if_there-elim, reachable-IsSound}
use ingress_nextgen.Configuration.Sound.{listener_map_of-MapsLast}
use ingress_nextgen.Configuration.Steps.{
  Call, IsReachable, after, at_start, drop_global_configuration, drop_ingress_at,
  drop_policy_service, drop_transport_server_at, drop_virtual_server_at,
  drop_virtual_server_route_at, put_global_configuration, put_ingress, put_policy_service,
  put_transport_server, put_virtual_server, put_virtual_server_route, startup_done,
}
use ingress_nextgen.Validation.Kept.{validate_global_configuration-AllCompatible}

-- A configuration's environment with this validator; ToAggregate makes the error of a list of errors.
unfoldable pub validating : Checks → (List FieldError → Option String) → Environment → Environment
unfolding validate_global_configuration
validating checks to_aggregate env = record env {
  validate_global_configuration = λ gc.
      let (valid, errs) = validate_global_configuration checks gc in
      (to_aggregate errs, valid.listeners);
}

-- A later listener of another name leaves the map's entry.
lookup-listener_map_of :
    (k : Listener) (ls : List Listener) (m : Map String Listener)
    → CompatibleWithAll k ls
    → lookup k.name (listener_map_of ls m) ≡ lookup k.name m
unfolding listener_map_of
lookup-listener_map_of k [] m a = refl
lookup-listener_map_of k (l ∷ ls) m (a, as') =
    lookup-listener_map_of k ls (insert l.name l m) as'
    ∙ rw lookup-insert (elim (Bool-cases (l.name == k.name)) [
      | inl t ↦ absurd (a.0 (sym (==_true l.name k.name t)))
      | inr n ↦ rw n refl
    ])

listener_map_of-Mem :
    (l : Listener) (ls : List Listener) (m : Map String Listener)
    → AllCompatible ls
    → Memᴰ l ls
    → lookup l.name (listener_map_of ls m) ≡ some l
unfolding listener_map_of
listener_map_of-Mem l [] m a h = absurd (Memᴰ.not-nil h)
listener_map_of-Mem l (k ∷ ls) m (a, as') (Memᴰ.head e) =
    ap (λ x. lookup x.name (listener_map_of ls (insert k.name k m))) e
    ∙ lookup-listener_map_of k ls (insert k.name k m) a
    ∙ lookup-insert_self k.name k m
    ∙ ap some (sym e)
listener_map_of-Mem l (k ∷ ls) m (a, as') (Memᴰ.tail h) =
    listener_map_of-Mem l ls (insert k.name k m) as' h

-- The stored listeners can stand together.
unfoldable IsStanding : Configuration → Type 0
IsStanding c = AllCompatible (listeners_of c.global_configuration)

module _ (checks : Checks) (to_aggregate : List FieldError → Option String)
    (env : Environment) where
  abbrev here : Environment
  here = validating checks to_aggregate env

  stored_after-IsStanding :
      (call : Call) (c : Configuration) → IsStanding c → IsStanding (stored_after here call c)
  unfolding stored_after store_ingress drop_ingress set_global_configuration IsStanding validating
  stored_after-IsStanding (put_ingress ing) c h =
      admit-elim IsStanding (ingress_error here ing) _ _ (λ e. h) h
  stored_after-IsStanding (put_virtual_server vs) c h =
      admit-elim IsStanding (virtual_server_error here vs) _ _ (λ e. h) h
  stored_after-IsStanding (put_virtual_server_route vsr) c h =
      admit-elim IsStanding (virtual_server_route_error here vsr) _ _ (λ e. h) h
  stored_after-IsStanding (put_transport_server ts) c h =
      admit-elim IsStanding (transport_server_error here ts) _ _ (λ e. h) h
  stored_after-IsStanding (drop_ingress_at key) c h =
      if_there-elim IsStanding (lookup key c.ingresses) _ _ h h
  stored_after-IsStanding (drop_virtual_server_at key) c h =
      if_there-elim IsStanding (lookup key c.virtual_servers) _ _ h h
  stored_after-IsStanding (drop_virtual_server_route_at key) c h =
      if_there-elim IsStanding (lookup key c.virtual_server_routes) _ _ h h
  stored_after-IsStanding (drop_transport_server_at key) c h =
      if_there-elim IsStanding (lookup key c.transport_servers) _ _ h h
  stored_after-IsStanding (put_global_configuration gc) c h =
      validate_global_configuration-AllCompatible checks gc
  stored_after-IsStanding drop_global_configuration c h = tt
  stored_after-IsStanding startup_done c h = h
  stored_after-IsStanding (put_policy_service namespace name auth_service) c h = h
  stored_after-IsStanding (drop_policy_service namespace name) c h = h

  reachable-IsStanding : (c : Configuration) → IsReachable here c → IsStanding c
  unfolding new_configuration IsStanding
  reachable-IsStanding _ at_start = tt
  reachable-IsStanding _ (after {c} call o reached e) =
      let (t, q) = step-IsRebuilt here call c o e in
      subst IsStanding (sym q) (stored_after-IsStanding call c (reachable-IsStanding c reached))

  -- In every reachable configuration with this validator, the listeners of the stored
  -- GlobalConfiguration are pairwise compatible, and each is found under its name in the map of
  -- listeners.
  pub reachable-listener_map :
      (c : Configuration)
      → IsReachable here c
      → AllCompatible (listeners_of c.global_configuration)
        × ((l : Listener)
            → Memᴰ l (listeners_of c.global_configuration)
            → lookup l.name c.listener_map ≡ some l)
  unfolding IsStanding
  reachable-listener_map c reached =
      let standing = reachable-IsStanding c reached in
      let sound = reachable-IsSound here c reached in
      (
        standing,
        λ l h.
            sound.5 l.name
            ∙ sym (listener_map_of-MapsLast _ l.name)
            ∙ listener_map_of-Mem l _ [] standing h,
      )
