-- ===== src/ControlPlane/Changes/Log.antt =====
-- services/control-plane/src/store.ts: the events that report the moves of a mission.
use avity_os.Base.{
  String, Bool, true, false, ◌≡◌, refl, sym, subst, ap, ◌∙◌, List, [], ◌∷◌, ◌++◌, Option, none,
  some, ◌===◌, if◌then◌else◌, lookup, string_eq,
}
use avity_os.Contracts.{MissionState}
use avity_os.Orchestration.Machines.{can_transition_mission}
use avity_os.ControlPlane.Store.{EventRow, MissionRow, Store}
use avity_os.ControlPlane.Changes.{recorded}

abbrev pub Moves : Type 0
Moves = List (MissionState × MissionState)

abbrev pub is_about : String → Option String → Bool
is_about id none = false
is_about id (some other) = other === id

abbrev pub listed : {A : Type 0} → Option A → List A
listed none = []
listed (some a) = a ∷ []

-- What one event reports of a mission.
abbrev pub move_in : String → EventRow → Moves
move_in id row = if is_about id row.scope.mission_id then listed (recorded row.event) else []

-- What the events report of a mission, the oldest first.
unfoldable pub moves_of : String → List EventRow → Moves
moves_of id [] = []
moves_of id (row ∷ rows) = move_in id row ++ moves_of id rows

-- The moves lead from a state to another, each a legal transition from where the last one led.
abbrev pub Leads : MissionState → Moves → MissionState → Type 0
Leads p [] q = p ≡ q
Leads p ((a, b) ∷ moves) q = (p ≡ a) × (can_transition_mission a b ≡ true) × Leads b moves q

-- What has become of a mission since a store, and what the events report of it since then.
pub record Reported (id : String) (m : MissionRow) (s t : Store) : Type 0 where
  pub row : MissionRow
  pub found : lookup id t.missions ≡ some row
  pub moves : Moves
  pub appended : moves_of id t.events ≡ moves_of id s.events ++ moves
  pub leads : Leads m.state moves row.state

pub append-nil : {A : Type 0} (xs : List A) → xs ++ [] ≡ xs
append-nil [] = refl
append-nil (x ∷ xs) = ap (λ ys. x ∷ ys) (append-nil xs)

append-append : {A : Type 0} (xs ys zs : List A) → (xs ++ ys) ++ zs ≡ xs ++ (ys ++ zs)
append-append [] ys zs = refl
append-append (x ∷ xs) ys zs = ap (λ l. x ∷ l) (append-append xs ys zs)

moves_of-append_one :
    (id : String) (rows : List EventRow) (row : EventRow)
    → moves_of id (rows ++ row ∷ []) ≡ moves_of id rows ++ move_in id row
unfolding moves_of
moves_of-append_one id [] row = append-nil (move_in id row)
moves_of-append_one id (first ∷ rows) row =
    ap (λ l. move_in id first ++ l) (moves_of-append_one id rows row)
    ∙ sym (append-append (move_in id first) (moves_of id rows) (move_in id row))

append_move :
    (p : MissionState) (moves : Moves) (q r : MissionState)
    → Leads p moves q
    → can_transition_mission q r ≡ true
    → Leads p (moves ++ (q, r) ∷ []) r
append_move p [] q r h legal = (h, legal, refl)
append_move p ((a, b) ∷ moves) q r (at_a, first, rest) legal =
    (at_a, first, append_move b moves q r rest legal)

pub same_row : {m n : MissionRow} → some m ≡ some n → m ≡ n
same_row h = cc

module _ (id : String) (m : MissionRow) (s : Store) where
  -- A change of neither missions nor events.
  pub elsewhere :
      (t u : Store)
      → u.missions ≡ t.missions
      → u.events ≡ t.events
      → Reported id m s t
      → Reported id m s u
  elsewhere t u missions events h = record {
    row = h.row;
    found = ap (lookup id) missions ∙ h.found;
    moves = h.moves;
    appended = ap (moves_of id) events ∙ h.appended;
    leads = h.leads;
  }

  -- An event that reports no move of the mission.
  pub unreported :
      (t u : Store) (row : EventRow)
      → lookup id u.missions ≡ lookup id t.missions
      → u.events ≡ t.events ++ row ∷ []
      → move_in id row ≡ []
      → Reported id m s t
      → Reported id m s u
  unreported t u row missions events silent h = record {
    row = h.row;
    found = missions ∙ h.found;
    moves = h.moves;
    appended =
        ap (moves_of id) events
        ∙ moves_of-append_one id t.events row
        ∙ ap (λ l. moves_of id t.events ++ l) silent
        ∙ append-nil (moves_of id t.events)
        ∙ h.appended;
    leads = h.leads;
  }

  -- A move of the mission with the event that reports it.
  pub reported :
      (t u : Store) (row : EventRow) (n n' : MissionRow)
      → lookup id t.missions ≡ some n
      → lookup id u.missions ≡ some n'
      → u.events ≡ t.events ++ row ∷ []
      → move_in id row ≡ (n.state, n'.state) ∷ []
      → can_transition_mission n.state n'.state ≡ true
      → Reported id m s t
      → Reported id m s u
  reported t u row n n' before after events told legal h = record {
    row = n';
    found = after;
    moves = h.moves ++ (n.state, n'.state) ∷ [];
    appended =
        ap (moves_of id) events
        ∙ moves_of-append_one id t.events row
        ∙ ap (λ l. moves_of id t.events ++ l) told
        ∙ ap (λ l. l ++ (n.state, n'.state) ∷ []) h.appended
        ∙ append-append (moves_of id s.events) h.moves ((n.state, n'.state) ∷ []);
    leads =
        append_move m.state h.moves n.state n'.state
          (subst (λ x. Leads m.state h.moves x.state) (same_row (sym h.found ∙ before)) h.leads)
          legal;
  }
