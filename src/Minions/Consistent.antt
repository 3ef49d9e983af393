-- ===== src/Minions/Consistent.antt =====
-- The index of the minions says of every stored Ingress what the Ingress itself says.
use ingress_nextgen.Common.{
  ==_refl, ==_true, Bool, Bool-cases, Option, String, [], arith, false, if◌then◌else◌, inl, inr,
  none, refl, some, string_eq, sym, true, ℕ_eq, ◌==◌, ◌∙◌, ◌∷◌, ◌≡◌,
}
use ingress_nextgen.Common.Maps.{IsMap, Map, lookup, lookup-remove, remove}
use ingress_nextgen.Objects.{Ingress}
use ingress_nextgen.Minions.Index.{MinionIndex, index_host, marked, remove_minion_from_index}

-- minionsByHost[h][k]
abbrev pub in_index : String → String → MinionIndex → Bool
in_index h k index = elim (lookup h index) [ none ↦ false | some ks ↦ marked k ks ]

abbrev pub is_host : String → Option String → Bool
is_host h none = false
is_host h (some g) = g == h

-- A key stands under a host just when the Ingress with the key is a minion of the host.
pub record IsConsistent (index : MinionIndex) (ingresses : Map String Ingress) : Type 0 where
  pub one_entry : IsMap index
  pub agrees : (h k : String) → in_index h k index ≡ is_host h (index_host (lookup k ingresses))

-- the key stands under one host at most
abbrev pub IsSingle : String → MinionIndex → Type 0
IsSingle key index =
    (h h' : String) → in_index h key index ≡ true → in_index h' key index ≡ true → h ≡ h'

in_index-cons :
    (h k host : String) (ks : Map String Bool) (index : MinionIndex)
    → in_index h k ((host, ks) ∷ index) ≡ (if host == h then marked k ks else in_index h k index)
unfolding lookup
in_index-cons h k host ks index = elim (Bool-cases (host == h)) [
  | inl t ↦ rw (t, in_index, lookup) refl
  | inr n ↦ rw (n, in_index, lookup) refl
]

in_index-none :
    (h k : String) (index : MinionIndex) → lookup h index ≡ none → in_index h k index ≡ false
in_index-none h k index e = rw (e, in_index) refl

-- the value of an index that begins with an entry, or with none where the entry is empty
in_index-entry :
    (h k host : String) (ks : Map String Bool) (index : MinionIndex)
    → lookup host index ≡ none
    → in_index h k (elim ks [ [] ↦ index | e ∷ rest ↦ (host, e ∷ rest) ∷ index ])
      ≡ (if host == h then marked k ks else in_index h k index)
unfolding lookup
in_index-entry h k host [] index new = elim (Bool-cases (host == h)) [
  | inl t ↦ rw t (rw (==_true host h t) at (in_index-none host k index new))
  | inr n ↦ rw (n, in_index, lookup) refl
]
in_index-entry h k host (e ∷ rest) index new = in_index-cons h k host (e ∷ rest) index

IsSingle-tail :
    (key host : String) (ks : Map String Bool) (index : MinionIndex)
    → lookup host index ≡ none
    → IsSingle key ((host, ks) ∷ index)
    → IsSingle key index
IsSingle-tail key host ks index new single h h' p q = single h h' (step h p) (step h' q)
  where
    step : (g : String) → in_index g key index ≡ true → in_index g key ((host, ks) ∷ index) ≡ true
    step g p = elim (Bool-cases (host == g)) [
      | inl t ↦
          (let f : in_index g key index ≡ false =
              in_index-none g key index (rw (==_true host g t) at new) in
            cc (p, f))
      | inr f ↦ in_index-cons g key host ks index ∙ (rw f p)
    ]

marked-remove :
    (key k : String) (ks : Map String Bool)
    → marked k (remove key ks) ≡ (if key == k then false else marked k ks)
marked-remove key k ks = ground (arith, lookup-remove key k ks)

without_here :
    (at_host is_key here later : Bool)
    → (at_host ≡ false → is_key ≡ true → later ≡ false)
    → (if at_host then if is_key then false else here else later)
      ≡ (if is_key then false else (if at_host then here else later))
without_here true is_key here later h = refl
without_here false true here later h = h refl refl
without_here false false here later h = refl

without_there :
    (at_host is_key here later : Bool)
    → (is_key ≡ true → here ≡ false)
    → (if at_host then here else (if is_key then false else later))
      ≡ (if is_key then false else (if at_host then here else later))
without_there true true here later h = h refl
without_there true false here later h = refl
without_there false is_key here later h = refl

-- a key that stands under the first host stands under no other
elsewhere :
    (h key host : String) (ks : Map String Bool) (index : MinionIndex)
    → IsSingle key ((host, ks) ∷ index)
    → marked key ks ≡ true
    → (host == h) ≡ false
    → in_index h key index ≡ false
elsewhere h key host ks index single here n = elim (Bool-cases (in_index h key index)) [
  | inr f ↦ f
  | inl t ↦
      (let e : host ≡ h =
          single host h (in_index-cons host key host ks index ∙ (rw (==_refl host) here))
            (in_index-cons h key host ks index ∙ (rw n t)) in
        let same : (host == h) ≡ true = rw e (==_refl h) in cc (n, same))
]

-- In an index with one entry for a host, where the removed key stands under one host at most: the key
-- is gone, and every other key stands where it stood.
pub in_index-remove_minion_from_index :
    (h k key : String) (index : MinionIndex)
    → IsMap index
    → IsSingle key index
    → in_index h k (remove_minion_from_index key index)
      ≡ (if key == k then false else in_index h k index)
unfolding remove_minion_from_index lookup
in_index-remove_minion_from_index h k key [] one single = ground arith
in_index-remove_minion_from_index h k key ((host, ks) ∷ index) one single =
    elim (Bool-cases (marked key ks)) [
      | inl here ↦ rw here (
          in_index-entry h k host (remove key ks) index one.0
          ∙ (rw (marked-remove key k ks) (
              rw (in_index-cons h k host ks index) (
                without_here (host == h) (key == k) (marked k ks) (in_index h k index)
                  (λ n e. rw (==_true key k e) at (elsewhere h key host ks index single here n))))))
      | inr there ↦ rw there (
          in_index-cons h k host ks (remove_minion_from_index key index)
          ∙ (rw (in_index-cons h k host ks index) (
              rw
                (in_index-remove_minion_from_index h k key index one.1
                  (IsSingle-tail key host ks index one.0 single))
                (without_there (host == h) (key == k) (marked k ks) (in_index h k index)
                  (λ e. rw (==_true key k e) at there)))))
    ]

still_none :
    (h key : String) (index : MinionIndex)
    → lookup h index ≡ none
    → lookup h (remove_minion_from_index key index) ≡ none
unfolding remove_minion_from_index lookup
still_none h key [] new = new
still_none h key ((host, ks) ∷ index) new = elim (Bool-cases (marked key ks)) [
  | inl here ↦ rw here (go (remove key ks) new)
  | inr there ↦ rw there (elim (Bool-cases (host == h)) [
    | inl t ↦ cc (rw t at new)
    | inr n ↦ rw n (still_none h key index (rw n at new))
  ])
]
  where
    go :
        (r : Map String Bool)
        → lookup h ((host, ks) ∷ index) ≡ none
        → lookup {K = String} {V = Map String Bool} h
            (elim r [ [] ↦ index | e ∷ rest ↦ (host, e ∷ rest) ∷ index ])
          ≡ none
    go [] new = elim (Bool-cases (host == h)) [ inl t ↦ cc (rw t at new) | inr n ↦ rw n at new ]
    go (e ∷ rest) new = elim (Bool-cases (host == h)) [
      | inl t ↦ cc (rw t at new)
      | inr n ↦ rw n (rw n at new)
    ]

pub remove_minion_from_index-IsMap :
    (key : String) (index : MinionIndex) → IsMap index → IsMap (remove_minion_from_index key index)
unfolding remove_minion_from_index
remove_minion_from_index-IsMap key [] one = tt
remove_minion_from_index-IsMap key ((host, ks) ∷ index) one = elim (Bool-cases (marked key ks)) [
  | inl here ↦ rw here (go (remove key ks))
  | inr there ↦
      rw there (still_none host key index one.0, remove_minion_from_index-IsMap key index one.1)
]
  where
    go :
        (r : Map String Bool)
        → IsMap {K = String} {V = Map String Bool}
            (elim r [ [] ↦ index | e ∷ rest ↦ (host, e ∷ rest) ∷ index ])
    go [] = one.1
    go (e ∷ rest) = one

-- the host under which an index of consistent keys has a key is the host of its Ingress
pub IsConsistent-IsSingle :
    (key : String) (index : MinionIndex) (ingresses : Map String Ingress)
    → IsConsistent index ingresses
    → IsSingle key index
IsConsistent-IsSingle key index ingresses i h h' p q =
    one (index_host (lookup key ingresses)) (sym (i.agrees h key) ∙ p) (sym (i.agrees h' key) ∙ q)
  where
    one : (o : Option String) → is_host h o ≡ true → is_host h' o ≡ true → h ≡ h'
    one none p q = cc p
    one (some g) p q = sym (==_true g h p) ∙ ==_true g h' q

pub is_host_if :
    (h : String) (b : Bool) (new o : Option Ingress)
    → is_host h (index_host (if b then new else o))
      ≡ (if b then is_host h (index_host new) else is_host h (index_host o))
is_host_if h true new o = refl
is_host_if h false new o = refl

-- Removing an Ingress from the map and its key from the index keeps the two consistent.
pub remove_minion_from_index-IsConsistent :
    (key : String) (index : MinionIndex) (ingresses : Map String Ingress)
    → IsConsistent index ingresses
    → IsConsistent (remove_minion_from_index key index) (remove key ingresses)
unfolding index_host
remove_minion_from_index-IsConsistent key index ingresses i = record {
  one_entry = remove_minion_from_index-IsMap key index i.one_entry;
  agrees = λ h k.
      in_index-remove_minion_from_index h k key index i.one_entry
        (IsConsistent-IsSingle key index ingresses i)
      ∙ (rw (lookup-remove key k ingresses)
          (rw (is_host_if h (key == k) none (lookup k ingresses)) (rw (i.agrees h k) refl)));
}
