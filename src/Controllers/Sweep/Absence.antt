-- ===== src/Controllers/Sweep/Absence.antt =====
-- The loop over the children returns from every world, and counts all of them only if none was there.
use iapetos.Prelude.{
  ℕ, suc, ◌+◌, ◌≤◌, ◌≡◌, ◌≢◌, ◌↔◌, refl, inl, inr, true, Option, none, some, List, [], ◌∷◌, arith,
  Option-cases,
}
use iapetos.Prelude.Slices.{length, All}
use iapetos.Effect.{Outcome, done, panic, diverged, pure, ◌>>=◌}
use iapetos.Effect.Total.{Total, Total-bind, Total-pure, Total-option, Anything}
use iapetos.Api.{NamespacedName}
use iapetos.Client.{not_found, failure, Reply, ok, err, plain, Store}
use iapetos.Client.Laws.{ReadsOnly}
use iapetos.Controllers.Status.{all_counted}
use iapetos.Controllers.Sweep.{sweep}
use iapetos.Services.Answers.{is_exists-Total, delete-Total}
use iapetos.Services.Objects
use iapetos.Services.Objects.{found, ignore_not_found}

-- A look-up finds nothing.
abbrev pub IsAbsent : {W A : Type 0} → Store W A → W → NamespacedName → Type 0
IsAbsent store w n = found (store.get n w).0 ≡ none

-- The server answers that there is no such object.
abbrev pub IsMissing : {W A : Type 0} → Store W A → W → NamespacedName → Type 0
IsMissing store w n = (store.get n w).0 ≡ err not_found

-- In the world `w` every look-up is answered: with the object, or with "not found".
pub record Answers {W A : Type 0} (store : Store W A) (w : W) : Type 0 where
  pub no_failure : (n : NamespacedName) → (store.get n w).0 ≢ err failure

IsAbsent-err : {A : Type 0} (r : Reply A) → r ≢ err failure → found r ≡ none → r ≡ err not_found
IsAbsent-err (ok a) h e = cc
IsAbsent-err (err not_found) h e = refl
IsAbsent-err (err failure) h e = absurd (h refl)

-- A look-up that is answered and finds nothing has found that there is no such object.
pub IsAbsent-IsMissing :
    {W A : Type 0} {store : Store W A} {w : W}
    → Answers store w
    → (n : NamespacedName) → IsAbsent store w n ↔ IsMissing store w n
IsAbsent-IsMissing {store = store} {w = w} answers n =
    (λ e. IsAbsent-err (store.get n w).0 (answers.no_failure n) e, λ e. rw e refl)

module _ {W A S : Type 0} (store : Store W A) (w : W) (key : S → NamespacedName) where
  pub all-IsMissing :
      Answers store w
      → (l : List S) → All (λ s. IsAbsent store w (key s)) l
      → All (λ s. IsMissing store w (key s)) l
  all-IsMissing answers [] h = tt
  all-IsMissing answers (s ∷ l) h =
      ((IsAbsent-IsMissing answers (key s)).0 h.0, all-IsMissing answers l h.1)

  pub all-IsAbsent :
      (l : List S) → All (λ s. IsMissing store w (key s)) l → All (λ s. IsAbsent store w (key s)) l
  all-IsAbsent [] h = tt
  all-IsAbsent (s ∷ l) h =
      (let e : (store.get (key s) w).0 ≡ err not_found = h.0 in rw e refl, all-IsAbsent l h.1)

-- What a counting pass that ends with `t` has met: it counts each entry at most once, and all only if
-- every one was settled and nothing was changed.
pub record Counted {W S : Type 0} (P : S → Type 0) (l : List S) (w w' : W) (sum t : ℕ)
    : Type 0 where
  pub bound : t ≤ sum + length l
  pub full : t ≡ sum + length l → All P l × (w' ≡ w)

pub Counted-nil :
    {W S : Type 0} {P : S → Type 0} {w w' : W} {sum t : ℕ}
    → ◌≡◌ {A = Outcome (Option ℕ × W)} (done (some sum, w)) (done (some t, w'))
    → Counted P [] w w' sum t
Counted-nil h = record { bound = ground arith; full = λ e. (tt, ground arith) }

-- A settled entry is counted.
pub Counted-settled :
    {W S : Type 0} {P : S → Type 0} {s : S} {l : List S} {w w' : W} {sum t : ℕ}
    → P s
    → Counted P l w w' (suc sum) t
    → Counted P (s ∷ l) w w' sum t
Counted-settled p ih = record {
  bound = omega (arith, ih.bound);
  full = λ e. let (rest, same) = ih.full (omega arith) in ((p, rest), same);
}

-- An entry that is not counted leaves the count short.
pub Counted-short :
    {W S : Type 0} (P : S → Type 0) {s : S} {l : List S} {w w' : W} {sum t : ℕ}
    → t ≤ sum + length l
    → Counted P (s ∷ l) w w' sum t
Counted-short P b = record { bound = omega arith; full = λ e. absurd (omega arith) }

module _ {W A S : Type 0} (store : Store W A) (key : S → NamespacedName) where
  pub sweep-Total : (l : List S) (sum : ℕ) → Total Anything (sweep store key l sum)
  unfolding sweep
  sweep-Total [] sum = Total-pure _ tt
  sweep-Total (s ∷ rest) sum = Total-bind _ _ (is_exists-Total store (key s)) λ there _.
      Total-option there _ _ (λ _. sweep-Total rest (suc sum))
        (λ obj _.
          Total-bind _ _ (delete-Total store obj)
            λ e _. Total-option e _ _ (λ _. sweep-Total rest sum) (λ _ _. Total-pure _ tt))

  module _ (reads : ReadsOnly store) where
    sweep_counts :
        (l : List S) (sum t : ℕ) (w w' : W)
        → sweep store key l sum w ≡ done (some t, w')
        → Counted (λ s. IsAbsent store w (key s)) l w w' sum t
    unfolding sweep Objects.is_exists Objects.delete
    sweep_counts [] sum t w w' h = Counted-nil h
    sweep_counts (s ∷ rest) sum t w w' h =
        let w1 = (store.get (key s) w).1 in
        elim (Option-cases (found (store.get (key s) w).0)) [
          | inl gone ↦ Counted-settled gone (
              sweep_counts rest (suc sum) t w w'
                (ground (arith, h, gone, reads.get_keeps (key s) w)))
          | inr (obj, there) ↦
              elim (Option-cases (ignore_not_found (store.delete plain obj w1).0)) [
                | inl e ↦
                    Counted-short _
                      (sweep_counts rest sum t (store.delete plain obj w1).1 w'
                        (ground (arith, h, there, e))).bound
                | inr (x, e) ↦ absurd (ground (arith, h, there, e))
              ]
        ]

    -- Where the count comes to the number of entries, none of the objects was there, and the world
    -- has stayed as it was.
    pub sweep-IsAbsent :
        (l : List S) (n : ℕ) (w w' : W)
        → length l ≡ n
        → (sweep store key l 0 >>= λ sum. pure (all_counted n sum)) w ≡ done (true, w')
        → All (λ s. IsAbsent store w (key s)) l × (w' ≡ w)
    sweep-IsAbsent l n w w' len h = counted (sweep store key l 0 w) refl
      where
        counted :
            (o : Outcome (Option ℕ × W))
            → sweep store key l 0 w ≡ o
            → All (λ s. IsAbsent store w (key s)) l × (w' ≡ w)
        counted (done (some t, w1)) e =
            let c = sweep_counts l 0 t w w1 e in
            let (all, same) = c.full (ground (arith, h, e, len)) in
            (all, ground (arith, h, e, same))
        counted (done (none, w1)) e = absurd (ground (arith, h, e))
        counted panic e = absurd (ground (arith, h, e))
        counted diverged e = absurd (ground (arith, h, e))
