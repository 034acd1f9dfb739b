-- ===== src/ControlPlane/Pause/Steps.antt =====
-- services/control-plane/src/store.ts: the steps by which a method brings a run to a state.
use avity_os.Base.{
  String, Bool, true, false, ◌≡◌, refl, ap, ◌∙◌, Option, none, some, lookup, string_eq,
  lookup-insert_self,
}
use avity_os.Contracts.{RunState, run_state_eq}
use avity_os.Orchestration.Machines.{can_transition_run}
use avity_os.ControlPlane.Store.{RunRow, Scope, Event, Store, StoreError, Host, run_state_changed}
use avity_os.ControlPlane.Store.Actions.{
  Action, ok, err, pure, gets, find_or_throw, modify, transaction, unless, when, ◌>>=◌, ◌>>◌,
}
use avity_os.ControlPlane.Journal.{append_event, on_run}
use avity_os.ControlPlane.Fence.{fenced}
use avity_os.ControlPlane.Lifecycle.{transition_run, moved_run, put_run}

-- The action returns, and the run is stored in the state afterwards.
pub record Brings (m : Action (Unit {0})) (id : String) (s : Store) (to : RunState) : Type 0 where
  pub returns : (m s).0 ≡ ok tt
  pub row : RunRow
  pub found : lookup id (m s).1.runs ≡ some row
  pub arrived : row.state ≡ to

module _ (id : String) (to : RunState) where
  pub Brings-then :
      (m k : Action (Unit {0})) (s : Store)
      → (m s).0 ≡ ok tt
      → Brings k id (m s).1 to
      → Brings (m >> k) id s to
  unfolding ◌>>◌ ◌>>=◌
  Brings-then m k s first rest = record {
    returns = ap (λ x. x.0) same ∙ rest.returns;
    row = rest.row;
    found = ap (λ x. lookup id x.1.runs) same ∙ rest.found;
    arrived = rest.arrived;
  }
    where
      same : (m >> k) s ≡ k (m s).1
      same = rw (first, ◌>>◌, ◌>>=◌) refl

  pub Brings-found :
      {A : Type 0} (find : Store → Option A) (e : StoreError) (f : A → Action (Unit {0}))
      (s : Store) (a : A)
      → find s ≡ some a
      → Brings (f a) id s to
      → Brings (find_or_throw find e >>= f) id s to
  unfolding ◌>>=◌ find_or_throw
  Brings-found find e f s a found rest = record {
    returns = ap (λ x. x.0) same ∙ rest.returns;
    row = rest.row;
    found = ap (λ x. lookup id x.1.runs) same ∙ rest.found;
    arrived = rest.arrived;
  }
    where
      same : (find_or_throw find e >>= f) s ≡ f a s
      same = rw found refl

  pub Brings-looked :
      (f : RunRow → Action (Unit {0})) (s : Store) (row : RunRow)
      → lookup id s.runs ≡ some row
      → Brings (f row) id s to
      → Brings
          (gets (λ t. lookup id t.runs) >>= λ o. elim o [ none ↦ pure tt | some run ↦ f run ])
          id
          s
          to
  unfolding ◌>>=◌ gets
  Brings-looked f s row found rest = record {
    returns = ap (λ x. x.0) same ∙ rest.returns;
    row = rest.row;
    found = ap (λ x. lookup id x.1.runs) same ∙ rest.found;
    arrived = rest.arrived;
  }
    where
      branch : Option RunRow → Action (Unit {0})
      branch o = elim o [ none ↦ pure tt | some run ↦ f run ]

      same :
          (gets (λ t. lookup id t.runs) >>= λ o. elim o [ none ↦ pure tt | some run ↦ f run ]) s
          ≡ f row s
      same = ap (λ o. branch o s) found

  pub Brings-when :
      (b : Bool) (m : Action (Unit {0})) (s : Store)
      → b ≡ true
      → Brings m id s to
      → Brings (when b m) id s to
  unfolding when
  Brings-when true m s h rest = rest
  Brings-when false m s h rest = cc

  pub Brings-skip :
      (b : Bool) (m k : Action (Unit {0})) (s : Store)
      → b ≡ false
      → Brings k id s to
      → Brings (when b m >> k) id s to
  unfolding when pure ◌>>◌ ◌>>=◌
  Brings-skip true m k s h rest = cc
  Brings-skip false m k s h rest = record {
    returns = rest.returns;
    row = rest.row;
    found = rest.found;
    arrived = rest.arrived;
  }

-- How the steps of a method go on.
module _ {B : Type 0} where
  transaction_lem :
      (m : Action B) (s : Store) (x : B × Store)
      → m s ≡ (ok x.0, x.1)
      → transaction m s ≡ (ok x.0, x.1)
  unfolding transaction
  transaction_lem m s x h = ap (λ y. elim y.0 [ ok a ↦ (ok a, y.1) | err e ↦ (err e, s) ]) h

  found_lem :
      {A : Type 0} (find : Store → Option A) (e : StoreError) (f : A → Action B) (s : Store) (a : A)
      → find s ≡ some a
      → (find_or_throw find e >>= f) s ≡ f a s
  unfolding ◌>>=◌ find_or_throw
  found_lem find e f s a found = rw found refl

  pure_lem : (k : Action B) (s : Store) → (pure tt >> k) s ≡ k s
  unfolding pure ◌>>◌ ◌>>=◌
  pure_lem k s = refl

  modify_lem : (f : Store → Store) (k : Action B) (s : Store) → (modify f >> k) s ≡ k (f s)
  unfolding modify ◌>>◌ ◌>>=◌
  modify_lem f k s = refl

  unless_lem :
      (b : Bool) (m : Action (Unit {0})) (k : Action B) (s : Store)
      → b ≡ true
      → (unless b m >> k) s ≡ k s
  unfolding unless pure ◌>>◌ ◌>>=◌
  unless_lem true m k s h = refl
  unless_lem false m k s h = cc

module _ (host : Host) (at : String) where
  append_event_lem :
      (scope : Scope) (event : Event) (s : Store)
      → append_event host at scope event s ≡ (ok tt, (append_event host at scope event s).1)
  unfolding append_event modify
  append_event_lem scope event s = refl

  transition_run_lem :
      (id : String) (to : RunState) (exit_reason error_category : Option String) (s : Store)
      (run : RunRow)
      → lookup id s.runs ≡ some run
      → can_transition_run run.state to ≡ true
      → transition_run host at id to exit_reason error_category none s ≡ (
        ok tt,
        (append_event host at
            (on_run run.project_id run.mission_id id)
            (run_state_changed run.state to exit_reason error_category)
            (put_run id (moved_run at to exit_reason error_category run) s)).1,
      )
  unfolding transition_run fenced
  transition_run_lem id to exit_reason error_category s run found legal =
      transaction_lem _ s (tt, _)
        (found_lem _ _ _ s run found
          ∙ pure_lem _ s
          ∙ unless_lem _ _ _ s legal
          ∙ modify_lem _ _ s
          ∙ append_event_lem _ _ _)

  pub transition_run-Brings :
      (id : String) (to : RunState) (exit_reason error_category : Option String) (s : Store)
      (run : RunRow)
      → lookup id s.runs ≡ some run
      → can_transition_run run.state to ≡ true
      → Brings (transition_run host at id to exit_reason error_category none) id s to
  unfolding append_event modify
  transition_run-Brings id to exit_reason error_category s run found legal = record {
    returns = ap (λ x. x.0) (transition_run_lem id to exit_reason error_category s run found legal);
    row = moved_run at to exit_reason error_category run;
    found =
        ap (λ x. lookup id x.1.runs)
          (transition_run_lem id to exit_reason error_category s run found legal)
        ∙ lookup-insert_self id (moved_run at to exit_reason error_category run) s.runs;
    arrived = refl;
  }
