-- ===== src/Orchestration/Machines/Projects.antt =====
-- Traces of a project by PROJECT_TRANSITIONS.
use avity_os.Base.{true, ◌≡◌, refl, subst, ◌⊎◌, inl, inr, arith}
use avity_os.Contracts.{ProjectStatus, project_status_eq}
use avity_os.Orchestration.Machines.{can_transition_project}
use avity_os.Orchestration.Machines.Traces.{Trace, start, step, Visits, Trace_ind}

abbrev pub ProjectTrace : ProjectStatus → ProjectStatus → Type 0
ProjectTrace = Trace can_transition_project

before_completed :
    (t : ProjectStatus)
    → can_transition_project t ProjectStatus.completed ≡ true
    → t ≡ ProjectStatus.active
unfolding can_transition_project
before_completed ProjectStatus.draft h = cc
before_completed t h = ground arith

Visits-last :
    {s t : ProjectStatus} (p : ProjectTrace s t) {v : ProjectStatus}
    → t ≡ v
    → Visits can_transition_project p v
Visits-last start e = e
Visits-last (step p h) e = inl e

-- A project that is completed by legal steps was active on the way.
completed_was_active :
    (p : ProjectTrace ProjectStatus.draft ProjectStatus.completed)
    → Visits can_transition_project p ProjectStatus.active
completed_was_active p = last p refl
  where
    last :
        {t : ProjectStatus} (q : ProjectTrace ProjectStatus.draft t)
        → t ≡ ProjectStatus.completed
        → Visits can_transition_project q ProjectStatus.active
    last start e = cc
    last (step {t = t} q h) e =
        inr
          (Visits-last q (before_completed t (subst (λ v. can_transition_project t v ≡ true) e h)))

-- Closed: completed projects can only be archived, and archived ones are closed for good.
IsClosed : ProjectStatus → Type 0
IsClosed s = (s ≡ ProjectStatus.completed) ⊎ (s ≡ ProjectStatus.archived)

IsClosed-step : (t u : ProjectStatus) → can_transition_project t u ≡ true → IsClosed t → IsClosed u
unfolding can_transition_project IsClosed
IsClosed-step ProjectStatus.draft u h s = ground arith
IsClosed-step t u h s = ground arith

-- By legal steps a completed project stays completed or is archived: it is never reopened.
completed_never_reopens :
    (t : ProjectStatus)
    → ProjectTrace ProjectStatus.completed t
    → (t ≡ ProjectStatus.completed) ⊎ (t ≡ ProjectStatus.archived)
unfolding IsClosed
completed_never_reopens t p = Trace_ind can_transition_project IsClosed IsClosed-step (inl refl) p
