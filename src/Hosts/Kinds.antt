-- ===== src/Hosts/Kinds.antt =====
-- The keys with a kind: the kinds keep them apart, and under one kind they are apart as the keys are.
use text.Mathlib.TextLemmas.{append_cancel_left, cons-append, head-eq_of_cons-eq}
use Prim.Native.Char.{Char, code}
use ingress_nextgen.Common.{String, ap, arith, sym, ◌++◌, ◌∙◌, ◌≡◌, ◌≢◌}
use ingress_nextgen.Resources.{ingress_kind, transport_server_kind, virtual_server_kind}

pub keys_apart : (kind a b : String) → kind ++ ("/" ++ a) ≡ kind ++ ("/" ++ b) → a ≡ b
keys_apart kind a b h = append_cancel_left "/" a b (append_cancel_left kind ("/" ++ a) ("/" ++ b) h)

heads_differ :
    (c d : Char) (s t a b : String)
    → code c ≢ code d
    → String.◌∷◌ c s ++ a ≡ String.◌∷◌ d t ++ b
    → ⊥
heads_differ c d s t a b n h =
    n (ap code (head-eq_of_cons-eq (sym (cons-append c s a) ∙ (h ∙ cons-append d t b))))

pub ingress_virtual_server : (a b : String) → ingress_kind ++ a ≡ virtual_server_kind ++ b → ⊥
ingress_virtual_server a b h =
    heads_differ "I" "V" "ngress" "irtualServer" a b (λ e. omega (arith, e)) h

pub ingress_transport_server : (a b : String) → ingress_kind ++ a ≡ transport_server_kind ++ b → ⊥
ingress_transport_server a b h =
    heads_differ "I" "T" "ngress" "ransportServer" a b (λ e. omega (arith, e)) h

pub virtual_server_transport_server :
    (a b : String) → virtual_server_kind ++ a ≡ transport_server_kind ++ b → ⊥
virtual_server_transport_server a b h =
    heads_differ "V" "T" "irtualServer" "ransportServer" a b (λ e. omega (arith, e)) h
