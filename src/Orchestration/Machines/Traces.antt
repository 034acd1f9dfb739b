-- ===== src/Orchestration/Machines/Traces.antt =====
-- Sequences of legal steps of a state machine, and the states that they visit.
use avity_os.Base.{Bool, true, false, ◌≡◌, ◌⊎◌, refl, subst, List, [], ◌∷◌, ◌&&◌, &&_split}

module _ {S : Type 0} (can : S → S → Bool) where
  -- A trace from `s`, its last step outermost.
  pub data Trace (s : S) : S → Type 0 where
    start : Trace s s
    step : {t u : S} → Trace s t → can t u ≡ true → Trace s u

  pub Trace-append : {s t u : S} → Trace s t → Trace t u → Trace s u
  Trace-append p start = p
  Trace-append p (step q h) = step (Trace-append p q) h

  -- The state is one of those that the trace passes, its ends included.
  abbrev pub Visits : {s t : S} → Trace s t → S → Type 0
  Visits {s} start v = s ≡ v
  Visits (step {u = u} p h) v = (u ≡ v) ⊎ Visits p v

  -- The end of a route, and whether each of its steps is legal.
  abbrev pub last_of : S → List S → S
  last_of s [] = s
  last_of s (t ∷ ts) = last_of t ts

  abbrev pub is_legal : S → List S → Bool
  is_legal s [] = true
  is_legal s (t ∷ ts) = can s t && is_legal t ts

  pub walk : (s : S) (route : List S) → is_legal s route ≡ true → Trace s (last_of s route)
  walk s [] h = start
  walk s (t ∷ ts) h =
      let (first, rest) = &&_split (can s t) (is_legal t ts) h in
      Trace-append (step start first) (walk t ts rest)

  -- A property that each legal step keeps holds along every trace.
  pub Trace_ind {ℓ} :
      (P : S → Type ℓ)
      → ((t u : S) → can t u ≡ true → P t → P u)
      → {s t : S} → P s
      → Trace s t
      → P t
  Trace_ind P keep h start = h
  Trace_ind P keep h (step {t = t} {u = u} p l) = keep t u l (Trace_ind P keep h p)

  -- Nothing but `s` itself follows a state with no legal step.
  pub Trace-absorbed : {s t : S} → ((u : S) → can s u ≡ false) → Trace s t → t ≡ s
  Trace-absorbed stuck start = refl
  Trace-absorbed {s} stuck (step {t = t} {u = u} p l) =
      absurd (elim-bool (subst (λ v. can v u ≡ true) (Trace-absorbed stuck p) l) (stuck u))
    where
      elim-bool : can s u ≡ true → can s u ≡ false → ⊥
      elim-bool a b = cc
