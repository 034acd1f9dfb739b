-- ===== src/ControlPlane/Changes/Reports.antt =====
-- services/control-plane/src/store.ts: what the events report of a mission, under changes.
use avity_os.Base.{
  String, Bool, true, false, ◌≡◌, refl, sym, subst, ap, ◌∙◌, List, [], ◌∷◌, Option, none, some,
  ◌===◌, if◌then◌else◌, lookup, lookup-insert, string_eq, beq_true, beq_self, Bool-cases, inl, inr,
}
use avity_os.Contracts.{MissionState}
use avity_os.ControlPlane.Store.{EventRow, Event, MissionRow, Store, Host, mission_state_changed}
use avity_os.ControlPlane.Journal.{event_row, on_mission}
use avity_os.ControlPlane.Changes.{
  Change, Changes, still, and_then, event_added, audit_added, mission_moved, mission_noted,
  run_added, run_moved, project_written, pauses_written, key_written, terminals_written,
  workers_written, recorded,
}
use avity_os.ControlPlane.Changes.Log.{
  is_about, listed, move_in, moves_of, Leads, Reported, append-nil, same_row, elsewhere, unreported,
  reported,
}

-- Redaction keeps what an event reports: it changes texts only, and the states of a mission are not
-- secrets.
abbrev pub KeepsMoves : Host → Type 0
KeepsMoves host = (event : Event) → recorded (host.redact_event event) ≡ recorded event

about_self : (id : String) → is_about id (some id) ≡ true
about_self id = beq_self id

module _ (host : Host) (writes : Bool) (redacted : KeepsMoves host) where
  told :
      (id at reason : String) (n n' : MissionRow) (rows : List EventRow)
      → move_in id (
          event_row host at
            (on_mission n.project_id id)
            (mission_state_changed n.state n'.state reason)
            rows)
        ≡ (n.state, n'.state) ∷ []
  told id at reason n n' rows =
      rw (about_self id) (ap listed (redacted (mission_state_changed n.state n'.state reason)))

  if_silent :
      (b : Bool) (o : Option (MissionState × MissionState))
      → o ≡ none
      → (if b then listed o else []) ≡ []
  if_silent true o h = ap listed h
  if_silent false o h = refl

  module _ (id : String) (m : MissionRow) (s : Store) where
    report_after_one :
        (t u : Store) → Change host writes t u → Reported id m s t → Reported id m s u
    report_after_one t _ (event_added at scope event other_event) h =
        unreported id m s t _ (event_row host at scope event t.events) refl refl
          (if_silent (is_about id scope.mission_id) _ (redacted event ∙ other_event)) h
    report_after_one t _ (mission_moved at reason k n n' found legal) h =
        elim (Bool-cases (k === id)) [
          | inl same ↦
              reported id m s t _
                (event_row host at (on_mission n.project_id k)
                  (mission_state_changed n.state n'.state reason) t.events)
                n n' (subst (λ j. lookup j t.missions ≡ some n) (beq_true same) found)
                (rw (lookup-insert k id n' t.missions, same) refl) refl
                (subst
                  (λ j.
                    move_in j (
                      event_row host at (on_mission n.project_id k)
                        (mission_state_changed n.state n'.state reason) t.events)
                    ≡ (n.state, n'.state) ∷ [])
                  (beq_true same) (told k at reason n n' t.events))
                legal h
          | inr other ↦
              unreported id m s t _
                (event_row host at (on_mission n.project_id k)
                  (mission_state_changed n.state n'.state reason) t.events)
                (rw (lookup-insert k id n' t.missions, other) refl) refl (rw other refl) h
        ]
    report_after_one t _ (mission_noted k n n' found same_state) h = elim (Bool-cases (k === id)) [
      | inl same ↦ record {
        row = n';
        found = rw (lookup-insert k id n' t.missions, same) refl;
        moves = h.moves;
        appended = h.appended;
        leads =
            subst (Leads m.state h.moves)
              (ap (λ x. x.state)
                  (same_row
                    (sym h.found ∙ subst (λ j. lookup j t.missions ≡ some n) (beq_true same) found))
                ∙ sym same_state)
              h.leads;
      }
      | inr other ↦ record {
        row = h.row;
        found = rw (lookup-insert k id n' t.missions, other) h.found;
        moves = h.moves;
        appended = h.appended;
        leads = h.leads;
      }
    ]
    report_after_one t u (audit_added at project_id actor action detail) h =
        elsewhere id m s t _ refl refl h
    report_after_one t u (run_added k r free queued) h = elsewhere id m s t _ refl refl h
    report_after_one t u (run_moved k r r' found legal) h = elsewhere id m s t _ refl refl h
    report_after_one t u (project_written k p p' w found legal later) h =
        elsewhere id m s t _ refl refl h
    report_after_one t u (pauses_written pauses) h = elsewhere id m s t _ refl refl h
    report_after_one t u (key_written keys) h = elsewhere id m s t _ refl refl h
    report_after_one t u (terminals_written terminals) h = elsewhere id m s t _ refl refl h
    report_after_one t u (workers_written workers) h = elsewhere id m s t _ refl refl h

    pub report-Changes :
        {t : Store} → Changes host writes s t → lookup id s.missions ≡ some m → Reported id m s t
    report-Changes still found = record {
      row = m;
      found = found;
      moves = [];
      appended = sym (append-nil (moves_of id s.events));
      leads = refl;
    }
    report-Changes (and_then {t = t} {u = u} before change) found =
        report_after_one t u change (report-Changes before found)
