-- ===== src/Tools/Laws.antt =====
-- The list of finalizers as a list without repetitions.
use iapetos.Prelude.{String, true, false, List, [], ◌∷◌, ◌++◌, ◌≡◌, ◌≢◌, refl, arith, eq_iff}
use iapetos.Tools.{match_string_from_array, remove_string}

-- No text stands twice.
abbrev pub IsNodup : List String → Type 0
IsNodup [] = Unit
IsNodup (v ∷ vs) = (match_string_from_array vs v ≡ false) × IsNodup vs

pub match-append_self :
    (vs : List String) (a : String) → match_string_from_array (vs ++ a ∷ []) a ≡ true
unfolding match_string_from_array
match-append_self [] a = ground (arith, eq_iff a a)
match-append_self (v ∷ vs) a = ground (arith, match-append_self vs a)

-- `RemoveString` does not change whether `MatchStringFromArray` finds another text.
pub match-remove_ne :
    (vs : List String) (a b : String)
    → a ≢ b
    → match_string_from_array (remove_string vs a) b ≡ match_string_from_array vs b
unfolding match_string_from_array remove_string
match-remove_ne [] a b ne = refl
match-remove_ne (v ∷ vs) a b ne = ground (arith, eq_iff v a, eq_iff v b, match-remove_ne vs a b ne)

-- After `RemoveString` from a list without repetitions, `MatchStringFromArray` does not find the text.
match-remove_self :
    (vs : List String) (a : String)
    → IsNodup vs
    → match_string_from_array (remove_string vs a) a ≡ false
unfolding match_string_from_array remove_string
match-remove_self [] a nd = refl
match-remove_self (v ∷ vs) a nd = ground (arith, eq_iff v a, match-remove_self vs a nd.1)
