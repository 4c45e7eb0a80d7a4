-- ===== src/XrayInstall/Jobs.antt =====
-- The update jobs of the installer (internal/xrayinstall/run.go, progress.go). A job runs on its own
-- after `beginJob` has answered, so that its steps and the requests may come in any order. The
-- progress in bytes and the target version are left out.
use zeroone.Prelude.{
  ℕ, suc, ◌+◌, ◌-◌, ◌≡◌, String, Bool, true, false, not, Option, none, some, List, [], ◌∷◌, ◌++◌,
  ◌==◌, leb, length, drop, if◌then◌else◌,
}
use zeroone.Prelude.Int.{ℤ, pos}

pub data Phase : Type 0 where
  queued downloading verifying staging swapping restarting done failed : Phase

abbrev pub is_over : Phase → Bool
is_over done = true
is_over failed = true
is_over _ = false

pub record Job : Type 0 where
  pub id : String
  pub phase : Phase
  pub started_at : ℤ
  pub finished_at : ℤ
  pub source : String
  pub failure : String
  -- `endJob` has run for the job.
  pub closed : Bool

-- The jobs made so far, the last one first, under the numbers that stand for their pointers; `job`
-- is the pointer in the installer.
pub record Installer : Type 0 where
  pub jobs : List (ℕ × Job)
  pub made : ℕ
  pub job : Option ℕ
  pub job_history : List Job

unfoldable pub job_at : ℕ → List (ℕ × Job) → Option Job
job_at k [] = none
job_at k ((m, j) ∷ js) = let rest = job_at k js in if m == k then some j else rest

unfoldable pub update_job : ℕ → (Job → Job) → List (ℕ × Job) → List (ℕ × Job)
update_job k f [] = []
update_job k f ((m, j) ∷ js) =
    let rest = update_job k f js in if m == k then (m, f j) ∷ js else (m, j) ∷ rest

-- The job of the installer is not over.
unfoldable pub is_busy : Installer → Bool
is_busy i = elim i.job [
  | none ↦ false
  | some k ↦ elim (job_at k i.jobs) [ none ↦ false | some j ↦ not (is_over j.phase) ]
]

abbrev pub fresh_job : String → String → ℤ → Job
fresh_job id source now = record {
  id = id;
  phase = queued;
  started_at = now;
  finished_at = pos 0;
  source = source;
  failure = "";
  closed = false;
}

-- `beginJob`; `none` stands for `ErrJobInProgress`.
unfoldable pub begin_job : String → String → ℤ → Installer → Option Installer
begin_job id source now i =
    if is_busy i
    then none
    else some (record i {
      jobs = (i.made, fresh_job id source now) ∷ i.jobs;
      made = suc i.made;
      job = some i.made;
    })

-- `setPhase` of a job.
unfoldable pub set_phase : ℕ → Phase → Installer → Installer
set_phase k p i = record i { jobs = update_job k (λ j. record j { phase = p }) i.jobs }

-- `finish` of a job.
unfoldable pub finish : ℕ → Phase → String → ℤ → Installer → Installer
finish k p problem now i = record i {
  jobs = update_job k (λ j. record j { phase = p; finished_at = now; failure = problem }) i.jobs;
}

-- The last eight.
unfoldable pub last_eight : List Job → List Job
last_eight js = if leb (length js) 8 then js else drop (length js - 8) js

-- `endJob`, for a job that was made.
unfoldable pub end_job : ℕ → Job → Installer → Installer
end_job k j i = record i {
  jobs = update_job k (λ j. record j { closed = true }) i.jobs;
  job = none;
  job_history = last_eight (i.job_history ++ (j ∷ []));
}

-- A step of a request or of a job. A job is begun by `UpdateOnline` or `UpdateFromUpload`; it goes
-- through phases, finishes once, and runs `endJob` at last.
pub data Step : Installer → Installer → Type 0 where
  begin :
      {i i' : Installer}
      → (id source : String) (now : ℤ) → begin_job id source now i ≡ some i'
      → Step i i'
  move :
      {i : Installer}
      → (k : ℕ) (j : Job) (p : Phase) → job_at k i.jobs ≡ some j
      → is_over j.phase ≡ false
      → is_over p ≡ false
      → Step i (set_phase k p i)
  settle :
      {i : Installer}
      → (k : ℕ) (j : Job) (p : Phase) (problem : String) (now : ℤ) → job_at k i.jobs ≡ some j
      → is_over j.phase ≡ false
      → is_over p ≡ true
      → Step i (finish k p problem now i)
  close :
      {i : Installer}
      → (k : ℕ) (j : Job) → job_at k i.jobs ≡ some j
      → is_over j.phase ≡ true
      → j.closed ≡ false
      → Step i (end_job k j i)

pub data Reach (s : Installer) : Installer → Type 0 where
  here : Reach s s
  next : {t u : Installer} → Reach s t → Step t u → Reach s u

-- The jobs that are not over.
unfoldable pub running : List (ℕ × Job) → ℕ
running [] = 0
running ((k, j) ∷ js) = (if is_over j.phase then 0 else 1) + running js

abbrev pub idle : Installer
idle = record { jobs = []; made = 0; job = none; job_history = [] }
