-- ===== src/ControlPlane/Changes/Methods.antt =====
-- services/control-plane/src/store.ts: the methods that make changes only, by how a method is put
-- together.
use avity_os.Base.{
  ◌≡◌, Bool, true, false, List, [], ◌∷◌, Option, none, some, string_eq, refl, sym, subst,
  if◌then◌else◌,
}
use avity_os.Contracts.{project_status_eq}
use avity_os.ControlPlane.Store.{Store, StoreError, Host}
use avity_os.ControlPlane.Store.Actions.{
  Action, Result, ok, err, pure, throw, gets, find_or_throw, modify, transaction, unless, when,
  for_each, ◌>>=◌, ◌>>◌,
}
use avity_os.ControlPlane.Changes.{Change, Changes, still, and_then, Changes-append}

-- What follows a result, and a transaction's outcome.
abbrev after : {A B : Type 0} → (A → Action B) → Result A → Action B
after f r t = elim r [ ok a ↦ f a t | err e ↦ (err e, t) ]

abbrev kept : {A : Type 0} → Store → Result A → Action A
kept s r t = elim r [ ok a ↦ (ok a, t) | err e ↦ (err e, s) ]

module _ (host : Host) (writes : Bool) where
  -- An action makes only changes from a store, whether it returns or throws.
  pub record Keeps {A : Type 0} (m : Action A) (s : Store) : Type 0 where
    pub changes : Changes host writes s (m s).1

  module _ {A : Type 0} where
    result-Changes :
        {B : Type 0} {s : Store} (f : A → Action B) (r : Result A) (t : Store)
        → Changes host writes s t
        → ((a : A) → Keeps (f a) t)
        → Changes host writes s (after f r t).1
    result-Changes f (ok a) t first rest = Changes-append host writes first (rest a).changes
    result-Changes f (err e) t first rest = first

    pub Keeps-bind :
        {B : Type 0} (m : Action A) (f : A → Action B) (s : Store)
        → Keeps m s
        → ((a : A) → Keeps (f a) (m s).1)
        → Keeps (m >>= f) s
    unfolding ◌>>=◌
    Keeps-bind m f s first rest = record {
      changes = result-Changes f (m s).0 (m s).1 first.changes rest;
    }

    rolled_back-Changes :
        {s : Store} (r : Result A) (t : Store)
        → Changes host writes s t
        → Changes host writes s (kept s r t).1
    rolled_back-Changes (ok a) t h = h
    rolled_back-Changes (err e) t h = still

    pub Keeps-transaction : (m : Action A) (s : Store) → Keeps m s → Keeps (transaction m) s
    unfolding transaction
    Keeps-transaction m s h = record { changes = rolled_back-Changes (m s).0 (m s).1 h.changes }

    found-Changes :
        {B : Type 0} (f : A → Action B) (e : StoreError) (s : Store) (o : Option A)
        → ((a : A) → o ≡ some a → Keeps (f a) s)
        → Changes host writes s (after f (elim o [ none ↦ err e | some a ↦ ok a ]) s).1
    found-Changes f e s none rest = still
    found-Changes f e s (some a) rest = (rest a refl).changes

    pub Keeps-found :
        {B : Type 0} (find : Store → Option A) (e : StoreError) (f : A → Action B) (s : Store)
        → ((a : A) → find s ≡ some a → Keeps (f a) s)
        → Keeps (find_or_throw find e >>= f) s
    unfolding ◌>>=◌ find_or_throw
    Keeps-found find e f s rest = record { changes = found-Changes f e s (find s) rest }

  module _ {B : Type 0} where
    pub Keeps-modify_then :
        (f : Store → Store) (k : Action B) (s : Store)
        → Change host writes s (f s)
        → Keeps k (f s)
        → Keeps (modify f >> k) s
    unfolding ◌>>◌ modify
    Keeps-modify_then f k s change rest = record {
      changes = Changes-append host writes (and_then still change) rest.changes;
    }

    -- Two writes that are one change.
    pub Keeps-both_then :
        (f g : Store → Store) (m : Action (Unit {0})) (k : Action B) (s : Store)
        → modify g ≡ m
        → Change host writes s (g (f s))
        → Keeps k (g (f s))
        → Keeps (modify f >> (m >> k)) s
    unfolding ◌>>◌ modify
    Keeps-both_then f g m k s writes_g change rest =
        subst (λ n. Keeps (modify f >> (n >> k)) s) writes_g
          (record { changes = Changes-append host writes (and_then still change) rest.changes })

    pub Keeps-gets :
        {A : Type 0} (f : Store → A) (k : A → Action B) (s : Store)
        → Keeps (k (f s)) s
        → Keeps (gets f >>= k) s
    unfolding ◌>>=◌ gets
    Keeps-gets f k s rest = record { changes = rest.changes }

    pub Keeps-then :
        (m : Action (Unit {0})) (k : Action B) (s : Store)
        → Keeps m s
        → Keeps k (m s).1
        → Keeps (m >> k) s
    unfolding ◌>>◌
    Keeps-then m k s first rest = Keeps-bind m (λ _. k) s first (λ _. rest)

    -- A check that leaves the store as it is.
    pub Keeps-checked :
        (check : Action (Unit {0})) (k : Action B) (s : Store)
        → (check s).1 ≡ s
        → Keeps k s
        → Keeps (check >> k) s
    unfolding ◌>>◌
    Keeps-checked check k s same rest =
        Keeps-bind check (λ _. k) s
          (record { changes = subst (Changes host writes s) (sym same) still })
          (λ _. subst (Keeps k) (sym same) rest)

    pub Keeps-unless :
        (b : Bool) (e : StoreError) (k : Action B) (s : Store)
        → (b ≡ true → Keeps k s)
        → Keeps (unless b (throw e) >> k) s
    unfolding ◌>>◌ unless throw
    Keeps-unless true e k s rest = rest refl
    Keeps-unless false e k s rest = record { changes = still }

  pub Keeps-when :
      (b : Bool) (m : Action (Unit {0})) (s : Store) → (b ≡ true → Keeps m s) → Keeps (when b m) s
  unfolding when
  Keeps-when true m s h = h refl
  Keeps-when false m s h = record { changes = still }

  pub Keeps-does_unless :
      (b : Bool) (m : Action (Unit {0})) (s : Store) → Keeps m s → Keeps (unless b m) s
  unfolding unless
  Keeps-does_unless true m s h = record { changes = still }
  Keeps-does_unless false m s h = h

  pub Keeps-modify :
      (f : Store → Store) (s : Store) → Change host writes s (f s) → Keeps (modify f) s
  unfolding modify
  Keeps-modify f s change = record { changes = and_then still change }

  pub Keeps-looked : {A : Type 0} (f : Store → A) (s : Store) → Keeps (gets f) s
  unfolding gets
  Keeps-looked f s = record { changes = still }

  pub Keeps-pure : {A : Type 0} (a : A) (s : Store) → Keeps (pure a) s
  unfolding pure
  Keeps-pure a s = record { changes = still }

  pub Keeps-throw : {A : Type 0} (e : StoreError) (s : Store) → Keeps (throw {A = A} e) s
  unfolding throw
  Keeps-throw e s = record { changes = still }

  pub Keeps-for_each :
      {A : Type 0} (body : A → Action (Unit {0})) (items : List A) (s : Store)
      → ((a : A) (t : Store) → Keeps (body a) t)
      → Keeps (for_each body items) s
  unfolding for_each
  Keeps-for_each body [] s h = Keeps-pure tt s
  Keeps-for_each body (a ∷ items) s h =
      Keeps-then (body a) (for_each body items) s (h a s) (Keeps-for_each body items (body a s).1 h)

  -- The branches of a test, and of a row that may be missing.
  pub Keeps-if :
      {A : Type 0} (b : Bool) (m k : Action A) (s : Store)
      → (b ≡ true → Keeps m s)
      → (b ≡ false → Keeps k s)
      → Keeps (if b then m else k) s
  Keeps-if true m k s first second = first refl
  Keeps-if false m k s first second = second refl

  pub Keeps-option :
      {A B : Type 0} (o : Option A) (m : Action B) (f : A → Action B) (s : Store)
      → Keeps m s
      → ((a : A) → Keeps (f a) s)
      → Keeps (elim o [ none ↦ m | some a ↦ f a ]) s
  Keeps-option none m f s without with_row = without
  Keeps-option (some a) m f s without with_row = with_row a
