-- ===== src/XrayInstall/Overlap.antt =====
-- How many jobs of the installer can run at a time (internal/xrayinstall/run.go).
use zeroone.Prelude.{
  ℕ, zero, suc, ◌≡◌, refl, ap, subst, arith, true, false, not, none, some, List, [], ◌∷◌, ◌++◌,
}
use zeroone.Prelude.Int.{pos}
use zeroone.XrayInstall.Jobs.{
  done, is_over, Job, Installer, job_at, update_job, is_busy, fresh_job, begin_job, finish,
  last_eight, end_job, Step, begin, settle, close, Reach, here, next, running, idle,
}

-- A state that can be reached in which the last job made is the installer's own and runs, beside `n`
-- others.
record Busy (n : ℕ) : Type 0 where
  others : List (ℕ × Job)
  mine : Job
  number : ℕ
  log : List Job
  unclosed : mine.closed ≡ false
  works : is_over mine.phase ≡ false
  beside : running others ≡ n
  reached : Reach idle (record {
    jobs = (number, mine) ∷ others;
    made = suc number;
    job = some number;
    job_history = log;
  })

a_job : Job
a_job = fresh_job "" "" (pos 0)

first : Busy 0
unfolding begin_job running is_busy a_job
first = record {
  others = [];
  mine = a_job;
  number = 0;
  log = [];
  unclosed = refl;
  works = refl;
  beside = refl;
  reached = next here (begin "" "" (pos 0) refl);
}

job_at-head : (k : ℕ) (j : Job) (js : List (ℕ × Job)) → job_at k ((k, j) ∷ js) ≡ some j
unfolding job_at
job_at-head k j js = ground arith

update_job-head :
    (k : ℕ) (f : Job → Job) (j : Job) (js : List (ℕ × Job))
    → update_job k f ((k, j) ∷ js) ≡ (k, f j) ∷ js
unfolding update_job
update_job-head k f j js = ground arith

job_at-second :
    (k : ℕ) (q j : Job) (js : List (ℕ × Job)) → job_at k ((suc k, q) ∷ (k, j) ∷ js) ≡ some j
unfolding job_at
job_at-second k q j js = ground arith

update_job-second :
    (k : ℕ) (f : Job → Job) (q j : Job) (js : List (ℕ × Job))
    → update_job k f ((suc k, q) ∷ (k, j) ∷ js) ≡ (suc k, q) ∷ (k, f j) ∷ js
unfolding update_job
update_job-second k f q j js = ground arith

-- A step to a state that is written another way.
next_to : {s t u v : Installer} → Reach s t → Step t u → u ≡ v → Reach s v
next_to {s} r st e = subst (λ w. Reach s w) e (next r st)

abbrev with_job : List (ℕ × Job) → ℕ → List Job → Installer
with_job js k log = record { jobs = js; made = suc k; job = some k; job_history = log }

abbrev without_job : List (ℕ × Job) → ℕ → List Job → Installer
without_job js k log = record { jobs = js; made = suc k; job = none; job_history = log }

abbrev over : Job → Job
over j = record j { phase = done; finished_at = pos 0; failure = "" }

abbrev closed_job : Job → Job
closed_job j = record j { closed = true }

is_busy-own :
    (k : ℕ) (j : Job) (js : List (ℕ × Job)) (log : List Job)
    → is_busy (with_job ((k, j) ∷ js) k log) ≡ not (is_over j.phase)
unfolding is_busy
is_busy-own k j js log = rw (job_at-head k j js, is_busy) refl

finish-own :
    (k : ℕ) (j : Job) (js : List (ℕ × Job)) (log : List Job)
    → finish k done "" (pos 0) (with_job ((k, j) ∷ js) k log) ≡ with_job ((k, over j) ∷ js) k log
unfolding finish
finish-own k j js log = ap (λ os. with_job os k log) (update_job-head k over j js)

end_job-second :
    (k : ℕ) (q j : Job) (js : List (ℕ × Job)) (log : List Job)
    → end_job k j (with_job ((suc k, q) ∷ (k, j) ∷ js) (suc k) log)
      ≡ without_job ((suc k, q) ∷ (k, closed_job j) ∷ js) (suc k) (last_eight (log ++ (j ∷ [])))
unfolding end_job
end_job-second k q j js log =
    ap (λ os. without_job os (suc k) (last_eight (log ++ (j ∷ []))))
      (update_job-second k closed_job q j js)

begin_job-over :
    (k : ℕ) (j : Job) (js : List (ℕ × Job)) (log : List Job)
    → is_over j.phase ≡ true
    → begin_job "" "" (pos 0) (with_job ((k, j) ∷ js) k log)
      ≡ some (with_job ((suc k, a_job) ∷ (k, j) ∷ js) (suc k) log)
unfolding begin_job a_job
begin_job-over k j js log h = rw (is_busy-own k j js log, h, begin_job) refl

begin_job-free :
    (k : ℕ) (js : List (ℕ × Job)) (log : List Job)
    → begin_job "" "" (pos 0) (without_job js k log)
      ≡ some (with_job ((suc k, a_job) ∷ js) (suc k) log)
unfolding begin_job is_busy a_job
begin_job-free k js log = refl

-- The own job finishes, a second one is begun, `endJob` of the first one forgets the second one, and
-- a third one is begun.
more : (n : ℕ) → Busy n → Busy (suc n)
unfolding a_job running
more n b =
    let k = b.number in
    let j = b.mine in
    let finished : Reach idle (with_job ((k, over j) ∷ b.others) k b.log) =
      next_to b.reached (settle k j done "" (pos 0) (job_at-head k j b.others) b.works refl)
        (finish-own k j b.others b.log) in
    let second : Reach idle (with_job ((suc k, a_job) ∷ (k, over j) ∷ b.others) (suc k) b.log) =
      next finished (begin "" "" (pos 0) (begin_job-over k (over j) b.others b.log refl)) in
    let log = last_eight (b.log ++ (over j ∷ [])) in
    let forgotten : Reach idle
        (without_job ((suc k, a_job) ∷ (k, closed_job (over j)) ∷ b.others) (suc k) log) =
      next_to second (close k (over j) (job_at-second k a_job (over j) b.others) refl b.unclosed)
        (end_job-second k a_job (over j) b.others b.log) in
    record {
      others = (suc k, a_job) ∷ (k, closed_job (over j)) ∷ b.others;
      mine = a_job;
      number = suc (suc k);
      log = log;
      unclosed = refl;
      works = refl;
      beside = omega (arith, b.beside);
      reached = next forgotten (begin "" "" (pos 0) (begin_job-free _ _ _));
    }

busy : (n : ℕ) → Busy n
busy zero = first
busy (suc n) = more n (busy n)

-- Any number of jobs can run at a time: for each number there is a state that requests and jobs reach
-- from the idle installer in which so many jobs are not over.
pub jobs-overlap : (n : ℕ) → (i : Installer) × Reach idle i × (running i.jobs ≡ n)
unfolding running
jobs-overlap zero = (idle, here, refl)
jobs-overlap (suc n) =
    let b = busy n in
    (
      with_job ((b.number, b.mine) ∷ b.others) b.number b.log,
      b.reached,
      rw (b.works, running) (omega (arith, b.beside)),
    )
