-- ===== src/Problems/Detect.antt =====
-- Which problems a rebuild reports: those that are new or have changed.
use ingress_nextgen.Common.{
  ==_refl, ==_true, Bool-cases, List, Memᴰ, Option, String, [], and-eq-true, ap, arith, bool_eq,
  bool_eq_iff, contains, false, inl, inr, none, not, refl, some, string_eq, sym, true, ℕ_eq, ◌&&◌,
  ◌==◌, ◌↔◌, ◌∙◌, ◌∷◌, ◌≡◌,
}
use ingress_nextgen.Common.Maps.{Map, lookup, sorted_keys}
use ingress_nextgen.Problems.{
  ConfigurationProblem, compare_configuration_problems, detect_changes_in_problems, new_or_updated,
  problems_at,
}
use mathlib.Core.List.Memᴰ
use mathlib.Core.Option.{some-injective}
use ingress_nextgen.Common.Keys.{contains-sorted_keys, is_some}

-- The problem `p` is the one under the key now, and before there was none there or another text.
abbrev pub IsNews :
    ConfigurationProblem → Option ConfigurationProblem → Option ConfigurationProblem → Type 0
IsNews p new none = new ≡ some p
IsNews p new (some old) = (new ≡ some p) × (compare_configuration_problems p old ≡ false)

IsNews-of_mem :
    (p : ConfigurationProblem) (new old : Option ConfigurationProblem)
    → Memᴰ p (new_or_updated new old)
    → IsNews p new old
unfolding new_or_updated
IsNews-of_mem p none old m = absurd (Memᴰ.not-nil m)
IsNews-of_mem p (some q) none m = ap some (sym (Memᴰ.eq_of_singleton m))
IsNews-of_mem p (some q) (some old) m = elim (Bool-cases (compare_configuration_problems q old)) [
  | inl same ↦ absurd (Memᴰ.not-nil (rw (same, not) at m))
  | inr changed ↦
      (let e : p ≡ q = Memᴰ.eq_of_singleton (rw (changed, not) at m) in
        (ap some (sym e), rw e changed))
]

mem_of_news :
    (p : ConfigurationProblem) (new old : Option ConfigurationProblem)
    → IsNews p new old
    → Memᴰ p (new_or_updated new old)
unfolding new_or_updated
mem_of_news p none none h = cc
mem_of_news p none (some old) h = cc h.0
mem_of_news p (some q) none h = Memᴰ.head (sym (some-injective q p h))
mem_of_news p (some q) (some old) h =
    let e : q ≡ p = some-injective q p h.0 in rw (e, h.1) (Memᴰ.head refl)

abbrev NewsAt :
    Map String ConfigurationProblem
    → Map String ConfigurationProblem
    → ConfigurationProblem
    → String
    → Type 0
NewsAt new old p k = IsNews p (lookup k new) (lookup k old)

problems_at-news :
    (new old : Map String ConfigurationProblem) (p : ConfigurationProblem) (ks : List String)
    → Memᴰ p (problems_at new old ks)
    → (k : String) × NewsAt new old p k
unfolding problems_at
problems_at-news new old p [] m = absurd (Memᴰ.not-nil m)
problems_at-news new old p (k ∷ ks) m =
    elim (Memᴰ.append_cases (new_or_updated (lookup k new) (lookup k old)) m) [
      | inl here ↦ (k, IsNews-of_mem p (lookup k new) (lookup k old) here)
      | inr later ↦ problems_at-news new old p ks later
    ]

news-problems_at :
    (new old : Map String ConfigurationProblem) (p : ConfigurationProblem) (ks : List String)
    (k : String)
    → contains ks k ≡ true
    → NewsAt new old p k
    → Memᴰ p (problems_at new old ks)
unfolding problems_at contains
news-problems_at new old p [] k c h = cc
news-problems_at new old p (j ∷ ks) k c h = elim (Bool-cases (j == k)) [
  | inl e ↦
      rw (==_true j k e)
        (Memᴰ.append_left (problems_at new old ks) (mem_of_news p (lookup k new) (lookup k old) h))
  | inr n ↦
      Memᴰ.append_right (new_or_updated (lookup j new) (lookup j old))
        (news-problems_at new old p ks k (ground (arith, n, c)) h)
]

-- The two problems say the same: severity, reason and message.
abbrev pub SaysSame : ConfigurationProblem → ConfigurationProblem → Type 0
SaysSame p q = (p.is_error ≡ q.is_error) × (p.reason ≡ q.reason) × (p.message ≡ q.message)

compare-SaysSame :
    (p q : ConfigurationProblem) → compare_configuration_problems p q ≡ true → SaysSame p q
unfolding compare_configuration_problems
compare-SaysSame p q h =
    let same = bool_eq p.is_error q.is_error && p.reason == q.reason in
    let (a, m) = and-eq-true same (p.message == q.message) h in
    let (e, r) = and-eq-true (bool_eq p.is_error q.is_error) (p.reason == q.reason) a in
    (
      (bool_eq_iff p.is_error q.is_error).0 e,
      ==_true p.reason q.reason r,
      ==_true p.message q.message m,
    )

SaysSame-compare :
    (p q : ConfigurationProblem) → SaysSame p q → compare_configuration_problems p q ≡ true
unfolding compare_configuration_problems
SaysSame-compare p q (e, r, m) =
    rw (e, r, m, (bool_eq_iff q.is_error q.is_error).1 refl, ==_refl q.reason, ==_refl q.message)
      refl

-- The problem is under the key now, and none that says the same was there before.
abbrev pub IsReported :
    Map String ConfigurationProblem
    → Map String ConfigurationProblem
    → ConfigurationProblem
    → String
    → Type 0
IsReported new old p k =
    (lookup k new ≡ some p)
    × ((q : ConfigurationProblem) → lookup k old ≡ some q → SaysSame p q → ⊥)

IsNews-IsReported :
    (p : ConfigurationProblem) (n o : Option ConfigurationProblem)
    → IsNews p n o ↔ ((n ≡ some p) × ((q : ConfigurationProblem) → o ≡ some q → SaysSame p q → ⊥))
IsNews-IsReported p n none = (λ h. (h, λ q e. cc e), λ h. h.0)
IsNews-IsReported p n (some old) = (
  λ h. (h.0, λ q e same. cc (SaysSame-compare p q same, h.1, some-injective old q e)),
  λ h. (
    h.0,
    elim (Bool-cases (compare_configuration_problems p old)) [
      | inl t ↦ absurd (h.1 old refl (compare-SaysSame p old t))
      | inr f ↦ f
    ],
  ),
)

reported_iff :
    (new old : Map String ConfigurationProblem) (p : ConfigurationProblem)
    → Memᴰ p (detect_changes_in_problems new old) ↔ ((k : String) × NewsAt new old p k)
unfolding detect_changes_in_problems
reported_iff new old p = (
  problems_at-news new old p (sorted_keys new),
  λ h.
      news-problems_at new old p (sorted_keys new) h.0
        (contains-sorted_keys h.0 new ∙ listed (lookup h.0 new) (lookup h.0 old) h.1) h.1,
)
  where
    listed : (n o : Option ConfigurationProblem) → IsNews p n o → is_some n ≡ true
    listed (some q) o h = refl
    listed none none h = cc
    listed none (some q) h = cc h.0

-- A problem is reported exactly if it stands under some key now, and under that key there was none
-- before with the same severity, reason and message.
pub detect_changes_in_problems_lem :
    (new old : Map String ConfigurationProblem) (p : ConfigurationProblem)
    → Memᴰ p (detect_changes_in_problems new old) ↔ ((k : String) × IsReported new old p k)
detect_changes_in_problems_lem new old p =
    let (there, back) = reported_iff new old p in
    (
      λ m.
          let (k, news) = there m in
          (k, (IsNews-IsReported p (lookup k new) (lookup k old)).0 news),
      λ h. back (h.0, (IsNews-IsReported p (lookup h.0 new) (lookup h.0 old)).1 h.1),
    )
