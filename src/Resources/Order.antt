-- ===== src/Resources/Order.antt =====
-- The order by which two resources are chosen between: the older one wins, then the larger UID.
use ingress_nextgen.Common.{
  Bool-cases, String, arith, false, inl, inr, not, str_ltb, str_ltb-ne, str_ltb_asymm,
  str_ltb_irrefl, str_ltb_trans, true, ◌≡◌, ◌≢◌,
}
use ingress_nextgen.Objects.{ObjectMeta}
use ingress_nextgen.Resources.{choose_object_meta_winner}
use text.Mathlib.TextEquality.{eq_iff}

-- Between two objects with different UIDs exactly one wins, whichever is asked first.
pub choose_object_meta_winner_total :
    (a b : ObjectMeta)
    → a.uid ≢ b.uid
    → choose_object_meta_winner a b ≡ not (choose_object_meta_winner b a)
unfolding choose_object_meta_winner
choose_object_meta_winner_total a b h =
    ground (arith, str_ltb-ne a.uid b.uid, str_ltb-ne b.uid a.uid)

pub choose_object_meta_winner_asymm :
    (a b : ObjectMeta)
    → choose_object_meta_winner a b ≡ true
    → choose_object_meta_winner b a ≡ false
unfolding choose_object_meta_winner
choose_object_meta_winner_asymm a b h = ground (arith, str_ltb_asymm b.uid a.uid)

pub choose_object_meta_winner_irrefl : (a : ObjectMeta) → choose_object_meta_winner a a ≡ false
unfolding choose_object_meta_winner
choose_object_meta_winner_irrefl a = ground (arith, str_ltb_irrefl a.uid)

-- Winning is transitive, so that of several resources one wins over all the others.
pub choose_object_meta_winner_trans :
    (a b c : ObjectMeta)
    → choose_object_meta_winner a b ≡ true
    → choose_object_meta_winner b c ≡ true
    → choose_object_meta_winner a c ≡ true
unfolding choose_object_meta_winner
choose_object_meta_winner_trans a b c h k = ground (arith, str_ltb_trans c.uid b.uid a.uid)

str_ltb_weak : (a b c : String) → str_ltb a b ≡ false → str_ltb b c ≡ false → str_ltb a c ≡ false
str_ltb_weak a b c h k = elim (Bool-cases (str_ltb b a)) [
  | inl t ↦ elim (Bool-cases (str_ltb a c)) [ inl u ↦ cc (str_ltb_trans b a c t u, k) | inr n ↦ n ]
  | inr n ↦ ground (arith, str_ltb-ne a b, eq_iff a b, h, n, k)
]

-- What does not beat a loser, or the equal of one, does not beat the winner.
pub choose_object_meta_winner_weak :
    (a b c : ObjectMeta)
    → choose_object_meta_winner a b ≡ false
    → choose_object_meta_winner b c ≡ false
    → choose_object_meta_winner a c ≡ false
unfolding choose_object_meta_winner
choose_object_meta_winner_weak a b c h k = ground (arith, str_ltb_weak c.uid b.uid a.uid, h, k)
