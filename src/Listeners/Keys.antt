-- ===== src/Listeners/Keys.antt =====
-- The sorted keys of a map of listener hosts are its keys.
use ingress_nextgen.Common.{
  List, [], arith, contains, refl, string_eq, ℕ_eq, ◌==◌, ◌||◌, ◌∙◌, ◌∷◌, ◌≡◌,
}
use ingress_nextgen.Common.Maps.{Map, keys, lookup}
use ingress_nextgen.Common.Keys.{is_some}
use ingress_nextgen.Resources.{TransportServerConfiguration}
use ingress_nextgen.Listeners.{
  ListenerHostKey, get_sorted_listener_host_keys, insert_key, listener_host_key_eq, sort_keys,
}

contains-insert_key :
    (k j : ListenerHostKey) (ks : List ListenerHostKey)
    → contains (insert_key k ks) j ≡ (k == j || contains ks j)
unfolding contains insert_key
contains-insert_key k j [] = refl
contains-insert_key k j (i ∷ ks) = ground (arith, contains-insert_key k j ks)

contains-sort_keys :
    (j : ListenerHostKey) (ks : List ListenerHostKey) → contains (sort_keys ks) j ≡ contains ks j
unfolding contains sort_keys
contains-sort_keys j [] = refl
contains-sort_keys j (k ∷ ks) =
    ground (arith, contains-insert_key k j (sort_keys ks), contains-sort_keys j ks)

contains-keys :
    (j : ListenerHostKey) (m : Map ListenerHostKey TransportServerConfiguration)
    → contains (keys m) j ≡ is_some (lookup j m)
unfolding contains keys lookup
contains-keys j [] = refl
contains-keys j ((k, v) ∷ m) = ground (arith, contains-keys j m)

pub contains-get_sorted_listener_host_keys :
    (j : ListenerHostKey) (m : Map ListenerHostKey TransportServerConfiguration)
    → contains (get_sorted_listener_host_keys m) j ≡ is_some (lookup j m)
unfolding get_sorted_listener_host_keys
contains-get_sorted_listener_host_keys j m = contains-sort_keys j (keys m) ∙ contains-keys j m
