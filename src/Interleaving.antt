-- ===== src/Interleaving.antt =====
-- Requests that are served at the same time, in general: each is cut into parts, and the parts of
-- all of them run one after the other in any order.
use rlvm.Base.{
  ℕ, ◌+◌, ◌-◌, ◌≤◌, ◌≡◌, refl, sym, ap, true, false, List, [], ◌∷◌, inl, inr, arith, ◌==◌,
  if◌then◌else◌, Bool-cases,
}
use mathlib.Core.Path.{subst}

-- The state that the requests share, and where each request stands. Of finitely many requests, the
-- others never run.
pub record World (S T : Type 0) : Type 0 where
  pub state : S
  pub tasks : ℕ → T

abbrev pub put : {T : Type 0} → ℕ → T → (ℕ → T) → ℕ → T
put i task tasks j = elim (j == i) [ true ↦ task | false ↦ tasks j ]

-- What holds of the new task and of the others holds of all.
pub put-all :
    {T : Type 0} (P : ℕ → T → Type 0) (i : ℕ) (task : T) (tasks : ℕ → T)
    → P i task
    → ((j : ℕ) → P j (tasks j))
    → (j : ℕ) → P j (put i task tasks j)
put-all P i task tasks new old j = elim (Bool-cases (j == i)) [
  | inl same ↦
      let e : i ≡ j = ground arith in
      let f : task ≡ put i task tasks j = ground arith in
      subst (P j) f (subst (λ k. P k task) e new)
  | inr other ↦ let f : tasks j ≡ put i task tasks j = ground arith in subst (P j) f (old j)
]

abbrev pub count : ℕ → List ℕ → ℕ
count i [] = 0
count i (j ∷ js) = (if i == j then 1 else 0) + count i js

-- `step i` runs the next part of request `i`.
module _ {S T : Type 0} (step : ℕ → T → S → T × S) where
  abbrev pub after : ℕ → World S T → World S T
  after i v = record {
    state = (step i (v.tasks i) v.state).1;
    tasks = put i (step i (v.tasks i) v.state).0 v.tasks;
  }

  pub data Reach (v : World S T) : World S T → Type 0 where
    here : Reach v v
    next : {u w : World S T} (i : ℕ) → Reach v u → w ≡ after i u → Reach v w

  -- What holds at first, and is kept by each part, holds of every state that is reached.
  pub Reach-all :
      (P : World S T → Type 0) {v w : World S T}
      → P v
      → ((i : ℕ) (u : World S T) → P u → P (after i u))
      → Reach v w
      → P w
  Reach-all P first keeps here = first
  Reach-all P first keeps (next {u = u} i r e) =
      subst P (sym e) (keeps i u (Reach-all P first keeps r))

  -- The requests run in this order, each time one part.
  abbrev pub serve : List ℕ → World S T → World S T
  serve [] v = v
  serve (i ∷ is) v = serve is (after i v)

  -- An order of runs is a way to reach its last state.
  pub serve-Reach : (is : List ℕ) (v w : World S T) → Reach v w → Reach v (serve is w)
  serve-Reach [] v w r = r
  serve-Reach (i ∷ is) v w r = serve-Reach is v (after i w) (next i r refl)

  -- `left` counts the parts that a task has still to run, at most.
  module _ (left : T → ℕ) (down : (i : ℕ) (t : T) (s : S) → left (step i t s).0 ≤ left t - 1) where
    after-left :
        (i j : ℕ) (v : World S T)
        → left ((after j v).tasks i) ≤ left (v.tasks i) - (if i == j then 1 else 0)
    after-left i j v = elim (Bool-cases (i == j)) [
      | inl same ↦
          let e : i ≡ j = ground arith in
          ground (arith, down j (v.tasks j) v.state, ap (λ k. left (v.tasks k)) e)
      | inr other ↦ ground arith
    ]

    pub serve-left :
        (is : List ℕ) (i : ℕ) (v : World S T)
        → left ((serve is v).tasks i) ≤ left (v.tasks i) - count i is
    serve-left [] i v = omega arith
    serve-left (j ∷ is) i v = omega (arith, serve-left is i (after j v), after-left i j v)
