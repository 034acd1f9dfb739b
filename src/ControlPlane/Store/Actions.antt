-- ===== src/ControlPlane/Store/Actions.antt =====
-- services/control-plane/src/store.ts and db.ts: methods as actions on the store that return or
-- throw, and `DB.transaction`. A nested transaction joins the outer one: what it throws rolls the
-- outer one back too, so that rolling it back by itself makes no difference.
use avity_os.Base.{Bool, true, false, List, [], ◌∷◌, Option, none, some}
use avity_os.ControlPlane.Store.{Store, StoreError}

pub data Result {ℓ} (A : Type ℓ) : Type ℓ where
  ok : A → Result A
  err : StoreError → Result A

abbrev pub Action : Type 0 → Type 0
Action A = Store → Result A × Store

infixl 5 ◌>>=◌ ◌>>◌
unfoldable pub ◌>>=◌ : {A B : Type 0} → Action A → (A → Action B) → Action B
◌>>=◌ m f s = let (r, s') = m s in elim r [ ok a ↦ f a s' | err e ↦ (err e, s') ]

unfoldable pub ◌>>◌ : {A B : Type 0} → Action A → Action B → Action B
unfolding ◌>>=◌
m >> k = m >>= λ _. k

module _ {A : Type 0} where
  unfoldable pub pure : A → Action A
  pure a s = (ok a, s)

  unfoldable pub throw : StoreError → Action A
  throw e s = (err e, s)

  unfoldable pub gets : (Store → A) → Action A
  gets f s = (ok (f s), s)

  -- A row that must be there.
  unfoldable pub find_or_throw : (Store → Option A) → StoreError → Action A
  find_or_throw find e s = (elim (find s) [ none ↦ err e | some a ↦ ok a ], s)

  unfoldable pub transaction : Action A → Action A
  transaction m s = let (r, s') = m s in elim r [ ok a ↦ (ok a, s') | err e ↦ (err e, s) ]

unfoldable pub modify : (Store → Store) → Action (Unit {0})
modify f s = (ok tt, f s)

unfoldable pub unless : Bool → Action (Unit {0}) → Action (Unit {0})
unfolding pure
unless true m = pure tt
unless false m = m

unfoldable pub when : Bool → Action (Unit {0}) → Action (Unit {0})
unfolding pure
when true m = m
when false m = pure tt

-- `for (const a of items)`
unfoldable pub for_each : {A : Type 0} → (A → Action (Unit {0})) → List A → Action (Unit {0})
for_each body [] = pure tt
for_each body (a ∷ items) = body a >> for_each body items
